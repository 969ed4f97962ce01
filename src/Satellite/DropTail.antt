-- ===== src/Satellite/DropTail.antt =====
-- A first-in, first-out queue with a greatest number of packets, as ns-3's drop-tail queue.
use hypatia_multicast.Base.{
  ℕ, ◌≡◌, refl, sym, List, [], ◌∷◌, ◌++◌, Option, some, none, if◌then◌else◌, ltb, length,
  Bool-cases, inl, inr,
}
use hypatia_multicast.Satellite.{Queues, IsFifo}

abbrev pub take_in : {P : Type 0} → ℕ → P → List P → Option (List P)
take_in max_size p q = if ltb (length q) max_size then some (q ++ p ∷ []) else none

abbrev pub take_out : {P : Type 0} → List P → Option (P × List P)
take_out [] = none
take_out (p ∷ q) = some (p, q)

abbrev pub drop_tail : (P : Type 0) → ℕ → Queues P
drop_tail P max_size = record {
  Queue = List P;
  contents = λ q. q;
  enqueue = take_in max_size;
  dequeue = take_out;
}

pub drop_tail-IsFifo : (P : Type 0) (max_size : ℕ) → IsFifo (drop_tail P max_size)
drop_tail-IsFifo P max_size = record {
  enqueue-contents = λ p q r e. elim (Bool-cases (ltb (length q) max_size)) [
    | inl room ↦
        let done : some (q ++ p ∷ []) ≡ some r = rw room at e in
        let same : q ++ p ∷ [] ≡ r = cc in sym same
    | inr full ↦ let refused : none ≡ some r = rw full at e in cc
  ];
  dequeue-none = empty;
  dequeue-some = first;
}
  where
    empty : (q : List P) → take_out q ≡ none → q ≡ []
    empty [] e = refl
    empty (p ∷ q) e = cc

    first : (p : P) (q r : List P) → take_out q ≡ some (p, r) → q ≡ p ∷ r
    first p [] r e = cc
    first p (x ∷ q) r e = let same_first : x ≡ p = cc in let same_rest : q ≡ r = cc in cc
