-- ===== src/Messenger/Order.antt =====
-- The order of the received items in a conversation.
use iu.Prelude.{
  ℕ, ◌≡◌, refl, ap, ◌∙◌, Bool, true, false, List, [], ◌∷◌, ◌++◌, map, arith, ◌==◌, sym, ==_refl,
  ◌≢◌, All, append-nil, append_assoc, if◌then◌else◌, ◌||◌, ◌⊎◌, inl, inr, ◌<◌, Bool-cases, ltb,
}
use iu.Prelude.Map.{
  Set, at_or, find-assign, contains, insert, contains-insert, IsAscending, IsAscending-insert,
  IsAscending-ext,
}
use iu.Messenger.{Item, insert_item, Messenger, initial, conversation, add_received}

-- The items of a conversation that are marked as received, or as sent.
unfoldable pub marked : Bool → List Item → List Item
marked b [] = []
marked true (it ∷ items) = if it.received then it ∷ marked true items else marked true items
marked false (it ∷ items) = if it.received then marked false items else it ∷ marked false items

marked-insert_item :
    (x : Item) (items : List Item)
    → x.received ≡ true
    → (marked true (insert_item x items) ≡ insert_item x (marked true items))
      × (marked false (insert_item x items) ≡ marked false items)
unfolding marked insert_item
marked-insert_item x [] h = ground arith
marked-insert_item x (it ∷ items) h = ground (arith, marked-insert_item x items h)

-- Without the mark an item goes to the end, and a second copy as well.
pub insert_item-unmarked :
    (x : Item) (items : List Item) → marked true items ≡ [] → insert_item x items ≡ items ++ x ∷ []
unfolding marked insert_item
insert_item-unmarked x [] h = refl
insert_item-unmarked x (it ∷ items) h = ground (arith, insert_item-unmarked x items)

-- No item that is marked as received has this index.
abbrev pub IsNew : ℕ → List Item → Type 0
IsNew index items = All (λ it. (it.received ≡ false) ⊎ (it.index ≢ index)) items

abbrev HeadAbove : ℕ → List Item → Type 0
HeadAbove index [] = Unit {0}
HeadAbove index (it ∷ items) = (it.received ≡ true) × (index < it.index)

-- The item stands between the items of before: behind marked ones of a lesser index, and before a
-- marked one of a greater index or at the end.
abbrev pub Inserted : Item → (items items' : List Item) → Type 0
Inserted x items items' =
    (xs ys : List Item) × (items ≡ xs ++ ys)
    × (items' ≡ xs ++ x ∷ ys)
    × All (λ it. (it.received ≡ false) ⊎ (it.index < x.index)) xs
    × HeadAbove x.index ys

Inserted-behind :
    (x it : Item) (items items' inserted : List Item)
    → (it.received ≡ false) ⊎ (it.index < x.index)
    → inserted ≡ it ∷ items'
    → Inserted x items items'
    → Inserted x (it ∷ items) inserted
Inserted-behind x it items items' inserted h k (xs, ys, e, e', a, b) =
    (it ∷ xs, ys, ap (λ l. it ∷ l) e, k ∙ ap (λ l. it ∷ l) e', (h, a), b)

pub insert_item-Inserted :
    (x : Item) (items : List Item) → IsNew x.index items → Inserted x items (insert_item x items)
unfolding insert_item
insert_item-Inserted x [] h = ([], [], refl, refl, tt, tt)
insert_item-Inserted x (it ∷ items) (h, hs) =
    let behind = Inserted-behind x it items (insert_item x items) (insert_item x (it ∷ items)) in
    let rest = insert_item-Inserted x items hs in
    elim (Bool-cases it.received) [
      | inr e ↦ behind (inl e) (ground arith) rest
      | inl e ↦ elim (Bool-cases (ltb x.index it.index)) [
        | inl l ↦ ([], it ∷ items, refl, ground arith, tt, (e, ground arith))
        | inr l ↦ elim (Bool-cases (x.index == it.index)) [
          | inl k ↦ absurd (ground arith)
          | inr k ↦ behind (inr (ground arith)) (ground arith) rest
        ]
      ]
    ]

pub conversation-initial : (k : ℕ) → conversation k initial ≡ []
unfolding conversation at_or iu.Prelude.Map.find
conversation-initial k = refl

marked-append_unmarked :
    (x : Item) (items : List Item)
    → marked true items ≡ []
    → x.received ≡ false
    → marked true (items ++ x ∷ []) ≡ []
unfolding marked
marked-append_unmarked x [] h k = ground arith
marked-append_unmarked x (it ∷ items) h k = ground (arith, marked-append_unmarked x items)

conversation-add_received :
    (sender k : ℕ) (item : Item) (s : Messenger)
    → conversation k (add_received sender item s)
      ≡ (if sender == k then insert_item item (conversation sender s) else conversation k s)
unfolding conversation add_received at_or
conversation-add_received sender k item s =
    ground (arith, find-assign sender k (insert_item item (conversation sender s)) s.messages)

-- Items of one sender arrive one after the other.
pub receive_all : ℕ → List Item → Messenger → Messenger
receive_all sender [] s = s
receive_all sender (x ∷ xs) s = receive_all sender xs (add_received sender x s)

-- The conversations with other nodes stay.
pub conversation-receive_all_ne :
    (sender k : ℕ) (xs : List Item) (s : Messenger)
    → sender ≢ k
    → conversation k (receive_all sender xs s) ≡ conversation k s
unfolding receive_all
conversation-receive_all_ne sender k [] s h = refl
conversation-receive_all_ne sender k (x ∷ xs) s h = ground (
  arith,
  conversation-receive_all_ne sender k xs (add_received sender x s) h,
  conversation-add_received sender k x s,
)

-- The indices that have arrived, in ascending order.
pub insert_all : List ℕ → Set → Set
insert_all [] s = s
insert_all (k ∷ ks) s = insert_all ks (insert k s)

insert_all-IsAscending : (ks : List ℕ) (s : Set) → IsAscending s → IsAscending (insert_all ks s)
unfolding insert_all
insert_all-IsAscending [] s h = h
insert_all-IsAscending (k ∷ ks) s h =
    insert_all-IsAscending ks (insert k s) (IsAscending-insert k s h)

contains-insert_all :
    (a : ℕ) (ks : List ℕ) (s : Set) → contains a (insert_all ks s) ≡ (contains a ks || contains a s)
unfolding insert_all contains
contains-insert_all a [] s = refl
contains-insert_all a (k ∷ ks) s =
    ground (arith, contains-insert_all a ks (insert k s), contains-insert k a s)

insert_all-eq :
    (ks js : List ℕ)
    → ((a : ℕ) → contains a ks ≡ contains a js)
    → insert_all ks [] ≡ insert_all js []
insert_all-eq ks js e =
    IsAscending-ext _ _ (insert_all-IsAscending ks [] tt) (insert_all-IsAscending js [] tt)
      (λ a. rw (contains-insert_all a ks [], contains-insert_all a js [], e a))

-- What one sender has sent: the item of each index, marked as received.
pub record IsLog (item_of : ℕ → Item) : Type 0 where
  pub index : (k : ℕ) → (item_of k).index ≡ k
  pub mark : (k : ℕ) → (item_of k).received ≡ true

module _ (item_of : ℕ → Item) (log : IsLog item_of) (sender : ℕ) where
  open log use {index, mark}

  insert_item-map :
      (k : ℕ) (s : Set) → insert_item (item_of k) (map item_of s) ≡ map item_of (insert k s)
  unfolding insert_item insert
  insert_item-map k [] = refl
  insert_item-map k (j ∷ s) = ground (arith, index k, index j, mark j, insert_item-map k s)

  marked-add_received :
      (k : ℕ) (set : Set) (s : Messenger)
      → marked true (conversation sender s) ≡ map item_of set
      → (marked true (conversation sender (add_received sender (item_of k) s))
          ≡ map item_of (insert k set))
        × (marked false (conversation sender (add_received sender (item_of k) s))
            ≡ marked false (conversation sender s))
  marked-add_received k set s h =
      let split = marked-insert_item (item_of k) (conversation sender s) (mark k) in
      rw (conversation-add_received sender sender (item_of k) s, ==_refl sender)
        (split.0 ∙ rw h (insert_item-map k set), split.1)

  -- A conversation in which no item is received yet ends with the items of the indices that
  -- arrive, in ascending order and once each, between the sent items, which stay as they were.
  pub marked-receive_all :
      (ks : List ℕ) (set : Set) (s : Messenger)
      → marked true (conversation sender s) ≡ map item_of set
      → (marked true (conversation sender (receive_all sender (map item_of ks) s))
          ≡ map item_of (insert_all ks set))
        × (marked false (conversation sender (receive_all sender (map item_of ks) s))
            ≡ marked false (conversation sender s))
  unfolding receive_all insert_all
  marked-receive_all [] set s h = (h, refl)
  marked-receive_all (k ∷ ks) set s h =
      let one = marked-add_received k set s h in
      let more = marked-receive_all ks (insert k set) (add_received sender (item_of k) s) one.0 in
      (more.0, more.1 ∙ one.1)

  -- If all items of a sender carry the mark and their index, and no item of the conversation is
  -- marked before, then whatever the order in which the items arrive, and however often each does,
  -- the received part of the conversation is the same, if the same items arrive.
  pub receive_all_order :
      (ks js : List ℕ) (s : Messenger)
      → marked true (conversation sender s) ≡ []
      → ((a : ℕ) → contains a ks ≡ contains a js)
      → marked true (conversation sender (receive_all sender (map item_of ks) s))
        ≡ marked true (conversation sender (receive_all sender (map item_of js) s))
  receive_all_order ks js s h e =
      (marked-receive_all ks [] s h).0
      ∙ ap (map item_of) (insert_all-eq ks js e)
      ∙ sym (marked-receive_all js [] s h).0

-- Without the mark, which `handle_item_msg` does not set, the items stand in the order in which
-- they arrive, as often as they do, behind what the conversation held, if nothing in that is
-- marked.
pub receive_all-unmarked :
    (sender : ℕ) (xs : List Item) (s : Messenger)
    → marked true (conversation sender s) ≡ []
    → All (λ x. x.received ≡ false) xs
    → conversation sender (receive_all sender xs s) ≡ conversation sender s ++ xs
unfolding receive_all
receive_all-unmarked sender [] s h a = sym (append-nil _)
receive_all-unmarked sender (x ∷ xs) s h a =
    let here : conversation sender (add_received sender x s) ≡ conversation sender s ++ x ∷ [] =
      rw (conversation-add_received sender sender x s, ==_refl sender)
        (insert_item-unmarked x (conversation sender s) h) in
    receive_all-unmarked sender xs (add_received sender x s)
      (rw here (marked-append_unmarked x (conversation sender s) h a.0)) a.1
    ∙ rw here (append_assoc (conversation sender s) (x ∷ []) xs)
