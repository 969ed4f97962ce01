-- ===== src/Satellite/Server.antt =====
-- What a net device of satellite-network promises: a server with one line. It takes items in, sends
-- them one at a time in the order in which it took them, each for its own duration, and is idle
-- only if nothing waits.
use hypatia_multicast.Base.{
  ℕ, ◌+◌, ◌≤◌, ◌≡◌, refl, sym, ap, subst, ◌∙◌, List, [], ◌∷◌, ◌++◌, map, Option, some, none, arith,
}

-- `sent` has the start, the duration and the item of each sending.
pub record Server (I : Type 0) : Type 0 where
  pub waiting : List I
  pub sent : List (ℕ × ℕ × I)
  pub busy_until : Option ℕ

abbrev pub idle_server : (I : Type 0) → Server I
idle_server I = record { waiting = []; sent = []; busy_until = none }

abbrev pub start_item : {I : Type 0} → Server I → ℕ → ℕ → I → Server I
start_item s now duration i = record s {
  sent = s.sent ++ (now, duration, i) ∷ [];
  busy_until = some (now + duration);
}

-- An item is taken in at a time; the durations are those of the present rate.
abbrev pub accept : {I : Type 0} → Server I → ℕ → (I → ℕ) → I → Server I
accept s now duration i = elim s.busy_until [
  | none ↦ start_item s now (duration i) i
  | some until ↦ record s { waiting = s.waiting ++ i ∷ [] }
]

abbrev pub accept_all : {I : Type 0} → Server I → ℕ → (I → ℕ) → List I → Server I
accept_all s now duration [] = s
accept_all s now duration (i ∷ is) = accept_all (accept s now duration i) now duration is

-- The present sending ends.
abbrev pub finish : {I : Type 0} → Server I → ℕ → (I → ℕ) → Server I
finish s now duration = elim s.waiting [
  | [] ↦ record s { busy_until = none }
  | i ∷ waiting ↦ start_item (record s { waiting = waiting }) now (duration i) i
]

abbrev pub items : {I : Type 0} → List (ℕ × ℕ × I) → List I
items = map (λ sending. sending.2)

-- Each sending starts when the one before has ended, the first one at `from` or later.
abbrev pub IsSpaced : {I : Type 0} → ℕ → List (ℕ × ℕ × I) → Type 0
IsSpaced from [] = Unit
IsSpaced from ((start, duration, i) ∷ rest) = (from ≤ start) × IsSpaced (start + duration) rest

-- The end of the last sending.
abbrev pub end_of : {I : Type 0} → ℕ → List (ℕ × ℕ × I) → ℕ
end_of from [] = from
end_of from ((start, duration, i) ∷ rest) = end_of (start + duration) rest

end_of-append :
    {I : Type 0} (from start duration : ℕ) (i : I) (sent : List (ℕ × ℕ × I))
    → end_of from (sent ++ (start, duration, i) ∷ []) ≡ start + duration
end_of-append from start duration i [] = refl
end_of-append from start duration i ((s, d, j) ∷ rest) = end_of-append (s + d) start duration i rest

IsSpaced-append :
    {I : Type 0} (from start duration : ℕ) (i : I) (sent : List (ℕ × ℕ × I))
    → IsSpaced from sent
    → end_of from sent ≤ start
    → IsSpaced from (sent ++ (start, duration, i) ∷ [])
IsSpaced-append from start duration i [] h le = (le, tt)
IsSpaced-append from start duration i ((s, d, j) ∷ rest) h le =
    (h.0, IsSpaced-append (s + d) start duration i rest h.1 le)

items-append :
    {I : Type 0} (start duration : ℕ) (i : I) (sent : List (ℕ × ℕ × I))
    → items (sent ++ (start, duration, i) ∷ []) ≡ items sent ++ i ∷ []
items-append start duration i [] = refl
items-append start duration i (x ∷ rest) = ap (λ l. x.2 ∷ l) (items-append start duration i rest)

pub ++-nil : {I : Type 0} (xs : List I) → xs ++ [] ≡ xs
++-nil [] = refl
++-nil (x ∷ xs) = ap (λ l. x ∷ l) (++-nil xs)

++-middle : {I : Type 0} (xs : List I) (y : I) (ys : List I) → (xs ++ y ∷ []) ++ ys ≡ xs ++ y ∷ ys
++-middle [] y ys = refl
++-middle (x ∷ xs) y ys = ap (λ l. x ∷ l) (++-middle xs y ys)

++-one : {I : Type 0} (xs ys : List I) (y : I) → (xs ++ ys) ++ y ∷ [] ≡ xs ++ (ys ++ y ∷ [])
++-one [] ys y = refl
++-one (x ∷ xs) ys y = ap (λ l. x ∷ l) (++-one xs ys y)

-- Is the server idle, or sending until the end of the last sending?
pub data IsBusy {I : Type 0} (now : ℕ) (s : Server I) : Type 0 where
  resting : s.busy_until ≡ none → s.waiting ≡ [] → end_of 0 s.sent ≤ now → IsBusy now s
  sending : s.busy_until ≡ some (end_of 0 s.sent) → now ≤ end_of 0 s.sent → IsBusy now s

-- The server at a time, when it has taken in the items `accepted`.
pub record IsServing {I : Type 0} (now : ℕ) (accepted : List I) (s : Server I) : Type 0 where
  pub in_order : items s.sent ++ s.waiting ≡ accepted
  pub spaced : IsSpaced 0 s.sent
  pub phase : IsBusy now s

pub idle_server-IsServing : (I : Type 0) (now : ℕ) → IsServing now [] (idle_server I)
idle_server-IsServing I now = record {
  in_order = refl;
  spaced = tt;
  phase = resting refl refl (omega arith);
}

start_item-IsServing :
    {I : Type 0} (now duration : ℕ) (i : I) (accepted : List I) (s : Server I)
    → items s.sent ++ i ∷ s.waiting ≡ accepted
    → IsSpaced 0 s.sent
    → end_of 0 s.sent ≤ now
    → IsServing now accepted (start_item s now duration i)
start_item-IsServing now duration i accepted s eq spaced le = record {
  in_order =
      ap (λ l. l ++ s.waiting) (items-append now duration i s.sent)
      ∙ ++-middle (items s.sent) i s.waiting
      ∙ eq;
  spaced = IsSpaced-append 0 now duration i s.sent spaced le;
  phase =
      sending (ap some (sym (end_of-append 0 now duration i s.sent)))
        (omega (arith, end_of-append 0 now duration i s.sent));
}

-- The order of the items when one more has been taken in.
in_order-append :
    {I : Type 0} (accepted : List I) (i : I) (s : Server I)
    → items s.sent ++ s.waiting ≡ accepted
    → items s.sent ++ (s.waiting ++ i ∷ []) ≡ accepted ++ i ∷ []
in_order-append accepted i s h = sym (++-one (items s.sent) s.waiting i) ∙ ap (λ l. l ++ i ∷ []) h

-- The server is busy until the end of its last sending.
pub end_of-until :
    {I : Type 0} (now until : ℕ) (accepted : List I) (s : Server I)
    → IsServing now accepted s
    → s.busy_until ≡ some until
    → end_of 0 s.sent ≡ until
end_of-until now until accepted s h e = elim h.phase [ resting e' w free ↦ cc | sending e' u ↦ cc ]

-- An idle server has sent everything.
pub idle-of_phase :
    {I : Type 0} (now : ℕ) (accepted : List I) (s : Server I)
    → IsServing now accepted s
    → s.busy_until ≡ none
    → (s.waiting ≡ []) × (end_of 0 s.sent ≤ now)
idle-of_phase now accepted s h e = elim h.phase [
  | resting e' w free ↦ (w, free)
  | sending e' u ↦ cc
]

pub accept-IsServing :
    {I : Type 0} (now later : ℕ) (duration : I → ℕ) (i : I) (accepted : List I) (s : Server I)
    → IsServing now accepted s
    → now ≤ later
    → ((until : ℕ) → s.busy_until ≡ some until → later ≤ until)
    → IsServing later (accepted ++ i ∷ []) (accept s later duration i)
accept-IsServing now later duration i accepted s h le before = by_phase s.busy_until refl
  where
    order : items s.sent ++ (s.waiting ++ i ∷ []) ≡ accepted ++ i ∷ []
    order = in_order-append accepted i s h.in_order

    by_phase :
        (b : Option ℕ)
        → s.busy_until ≡ b
        → IsServing later (accepted ++ i ∷ []) (elim b [
          | none ↦ start_item s later (duration i) i
          | some until ↦ record s { waiting = s.waiting ++ i ∷ [] }
        ])
    by_phase none e =
        let idle = idle-of_phase now accepted s h e in
        start_item-IsServing later (duration i) i (accepted ++ i ∷ []) s
          (rw (idle.0) (rw (idle.0) at order)) h.spaced (omega (arith, idle.1, le))
    by_phase (some until) e = record {
      in_order = order;
      spaced = h.spaced;
      phase =
          let same = end_of-until now until accepted s h e in
          sending (e ∙ ap some (sym same)) (omega (arith, same, before until e));
    }

pub finish-IsServing :
    {I : Type 0} (now until : ℕ) (duration : I → ℕ) (accepted : List I) (s : Server I)
    → IsServing now accepted s
    → s.busy_until ≡ some until
    → IsServing until accepted (finish s until duration)
finish-IsServing now until duration accepted s h e = by_waiting s.waiting refl
  where
    by_waiting :
        (w : List _)
        → s.waiting ≡ w
        → IsServing until accepted (elim w [
          | [] ↦ record s { busy_until = none }
          | i ∷ waiting ↦ start_item (record s { waiting = waiting }) until (duration i) i
        ])
    by_waiting [] eq = record {
      in_order = h.in_order;
      spaced = h.spaced;
      phase = resting refl eq (omega (arith, end_of-until now until accepted s h e));
    }
    by_waiting (i ∷ rest) eq =
        start_item-IsServing until (duration i) i accepted (record s { waiting = rest })
          (rw eq at h.in_order) h.spaced (omega (arith, end_of-until now until accepted s h e))

pub accept-idle :
    {I : Type 0} (s : Server I) (now : ℕ) (duration : I → ℕ) (i : I)
    → s.busy_until ≡ none
    → accept s now duration i ≡ start_item s now (duration i) i
accept-idle s now duration i e = rw e refl

pub accept-busy :
    {I : Type 0} (s : Server I) (now until : ℕ) (duration : I → ℕ) (i : I)
    → s.busy_until ≡ some until
    → accept s now duration i ≡ record s { waiting = s.waiting ++ i ∷ [] }
accept-busy s now until duration i e = rw e refl

pub finish-all_sent :
    {I : Type 0} (s : Server I) (now : ℕ) (duration : I → ℕ)
    → s.waiting ≡ []
    → finish s now duration ≡ record s { busy_until = none }
finish-all_sent s now duration e = rw e refl

pub finish-next :
    {I : Type 0} (s : Server I) (now : ℕ) (duration : I → ℕ) (i : I) (rest : List I)
    → s.waiting ≡ i ∷ rest
    → finish s now duration ≡ start_item (record s { waiting = rest }) now (duration i) i
finish-next s now duration i rest e = rw e refl

-- Time passes, up to the end of the present sending.
pub wait-IsServing :
    {I : Type 0} (now later : ℕ) (accepted : List I) (s : Server I)
    → IsServing now accepted s
    → now ≤ later
    → ((until : ℕ) → s.busy_until ≡ some until → later ≤ until)
    → IsServing later accepted s
wait-IsServing now later accepted s h le before = record {
  in_order = h.in_order;
  spaced = h.spaced;
  phase = elim h.phase [
    | resting e w free ↦ resting e w (omega (arith, free, le))
    | sending e u ↦ sending e (before (end_of 0 s.sent) e)
  ];
}

busy_until-le :
    {I : Type 0} (now until : ℕ) (accepted : List I) (s : Server I)
    → IsServing now accepted s
    → s.busy_until ≡ some until
    → now ≤ until
busy_until-le now until accepted s h e = elim h.phase [
  | resting e' w free ↦ cc
  | sending e' u ↦ let same : end_of 0 s.sent ≡ until = cc in omega (arith, same, u)
]

pub accept_all-IsServing :
    {I : Type 0} (now : ℕ) (duration : I → ℕ) (accepted is : List I) (s : Server I)
    → IsServing now accepted s
    → IsServing now (accepted ++ is) (accept_all s now duration is)
accept_all-IsServing now duration accepted [] s h =
    subst (λ l. IsServing now l s) (sym (++-nil accepted)) h
accept_all-IsServing now duration accepted (i ∷ is) s h =
    subst (λ l. IsServing now l (accept_all (accept s now duration i) now duration is))
      (++-middle accepted i is)
      (accept_all-IsServing now duration (accepted ++ i ∷ []) is (accept s now duration i) (
        accept-IsServing now now duration i accepted s h (omega arith)
          (λ until e. busy_until-le now until accepted s h e)))
