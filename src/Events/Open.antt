-- ===== src/Events/Open.antt =====
-- No message waits for a channel that has been closed.
use autok3s.Base.{
  String, Bool, true, false, List, [], ◌∷◌, ◌≡◌, ◌≢◌, ap, arith, contains, contains-delete_key,
  eq_iff,
}
use autok3s.Events.{
  fresh, closed, Broadcaster, Step, register, begin, deliver, finish, forward, done, evict, Run,
  stop, more, pending_of, accepted, new_broadcaster,
}

-- A channel that a message waits for is a subscriber, and one that is closed or not made is none.
abbrev IsSound : String → Broadcaster → Type 0
IsSound s b =
    (contains (pending_of b.lock) s ≡ true → contains b.subs s ≡ true)
    × (b.phase s ≡ closed → contains b.subs s ≡ false)
    × (b.phase s ≡ fresh → contains b.subs s ≡ false)

accepted_lem :
    (accepts : String → Bool) (subs : List String) (s : String)
    → contains (accepted accepts subs) s ≡ true
    → contains subs s ≡ true
unfolding contains accepted
accepted_lem accepts [] s h = h
accepted_lem accepts (r ∷ subs) s h = ground (arith, accepted_lem accepts subs s)

module _ (s : String) where
  step-IsSound : (b c : Broadcaster) → Step b c → IsSound s b → IsSound s c
  unfolding contains
  step-IsSound b c (register b' r e f) (h, k, l) =
      ground (arith, eq_iff s r, h, k, l, e, f, ap (λ x. contains (pending_of x) s) e)
  step-IsSound b c (begin b' accepts e) (h, k, l) = (accepted_lem accepts b'.subs s, k, l)
  step-IsSound b c (deliver b' r pending e f g) (h, k, l) = ground (
    arith,
    eq_iff s r,
    contains-delete_key r pending s,
    h,
    k,
    l,
    ap (λ x. contains (pending_of x) s) e,
    λ (x : s ≡ r). ap b'.phase x,
  )
  step-IsSound b c (finish b' e) (h, k, l) = ground (arith, k, l)
  step-IsSound b c (forward b' r f) (h, k, l) =
      ground (arith, eq_iff s r, h, k, l, λ (x : s ≡ r). ap b'.phase x)
  step-IsSound b c (done b' r f) (h, k, l) =
      ground (arith, eq_iff s r, h, k, l, λ (x : s ≡ r). ap b'.phase x)
  step-IsSound b c (evict b' r e f) (h, k, l) = ground (
    arith,
    eq_iff s r,
    contains-delete_key r b'.subs s,
    h,
    k,
    l,
    ap (λ x. contains (pending_of x) s) e,
  )

  run-IsSound : (b c : Broadcaster) → Run b c → IsSound s b → IsSound s c
  run-IsSound b c (stop b') h = h
  run-IsSound b c (more b' c' d x r) h = run-IsSound c' d r (step-IsSound b' c' x h)

  new-IsSound : IsSound s new_broadcaster
  unfolding contains
  new-IsSound = ground arith

  -- In no run of a new broadcaster does a message wait for a channel that is closed.
  pub pending_open :
      (b : Broadcaster)
      → Run new_broadcaster b
      → contains (pending_of b.lock) s ≡ true
      → (b.phase s ≢ closed) × (contains b.subs s ≡ true)
  pending_open b r h =
      let (f, k, l) = run-IsSound new_broadcaster b r new-IsSound in
      (λ e. ground (arith, k e, f h), f h)
