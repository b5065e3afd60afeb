-- ===== src/ProcessingQueue/Sample.antt =====
-- A queue of items held as a list.
use sensaurus.Prelude.{ℕ, ◌≡◌, refl, arith, List, [], ◌∷◌, ◌++◌, length, ltb, if◌then◌else◌}
use sensaurus.ProcessingQueue.{request_none, QueueItem, status_item, Fifo}

abbrev pub push_list : List QueueItem × ℕ → QueueItem → List QueueItem × ℕ
push_list q a = (if ltb (length q.0) q.1 then q.0 ++ a ∷ [] else q.0, q.1)

abbrev pub pop_list : List QueueItem × ℕ → QueueItem × (List QueueItem × ℕ)
pop_list ([], n) = (status_item request_none, ([], n))
pop_list (a ∷ xs, n) = (a, (xs, n))

pub pop_list_first :
    (q : List QueueItem × ℕ) (a : QueueItem) (rest : List QueueItem)
    → q.0 ≡ a ∷ rest
    → ((pop_list q).0 ≡ a) × ((pop_list q).1.0 ≡ rest)
pop_list_first ([], n) a rest e = absurd (ground arith)
pop_list_first (x ∷ xs, n) a rest e = (ground arith, ground arith)

pub pop_list_empty :
    (q : List QueueItem × ℕ)
    → q.0 ≡ []
    → ((pop_list q).0 ≡ status_item request_none) × ((pop_list q).1.0 ≡ [])
pop_list_empty ([], n) e = (refl, refl)
pop_list_empty (x ∷ xs, n) e = absurd (ground arith)

pub room-pop_list : (q : List QueueItem × ℕ) → (pop_list q).1.1 ≡ q.1
room-pop_list ([], n) = refl
room-pop_list (x ∷ xs, n) = refl

abbrev pub list_fifo : Fifo QueueItem
list_fifo = record {
  Queue = List QueueItem × ℕ;
  blank = status_item request_none;
  make = λ n. ([], n);
  count = λ q. length q.0;
  push = push_list;
  pop = pop_list;
  held = λ q. q.0;
  room = λ q. q.1;
  held-make = λ n. refl;
  room-make = λ n. refl;
  count_is = λ q. refl;
  held-push = λ q a. refl;
  room-push = λ q a. refl;
  pop_empty = pop_list_empty;
  pop_first = pop_list_first;
  room-pop = room-pop_list;
}
