-- ===== src/Events/Deadlock.antt =====
-- A reader that leaves its loop while a broadcast has a message for it: each waits for the other.
use autok3s.Base.{
  String, Bool, true, List, [], ◌∷◌, ◌≡◌, refl, sym, ap, ◌∙◌, arith, contains, delete_key, eq_iff,
  eq_refl, contains-delete_key, ◌≢◌,
}
use autok3s.Events.{
  Phase, fresh, selecting, forwarding, evicting, free, publishing, Broadcaster, Step, register,
  begin, deliver, finish, forward, done, evict, Run, stop, more, pending_of, set_phase, accepted,
}

-- A message waits for a reader that waits for the mutex.
abbrev pub IsDeadlocked : String → Broadcaster → Type 0
IsDeadlocked s b =
    (pending : List String) × (b.lock ≡ publishing pending)
    × (contains pending s ≡ true)
    × (b.phase s ≡ evicting)

-- Only the reader itself could leave its call, and only when the mutex is free.
kept_phase :
    (phase : String → Phase) (s r : String) (p q : Phase)
    → phase s ≡ evicting
    → phase r ≡ p
    → (p ≡ evicting → q ≡ evicting)
    → set_phase r q phase s ≡ evicting
kept_phase phase s r p q h k f = ground (arith, eq_iff s r, λ (e : s ≡ r). ap phase e)

step-IsDeadlocked :
    (s : String) (b c : Broadcaster) → Step b c → IsDeadlocked s b → IsDeadlocked s c
unfolding contains
step-IsDeadlocked s b c (register b' r e f) (pending, h, k, p) =
    (pending, h, k, kept_phase b'.phase s r fresh selecting p f (λ x. ground arith))
step-IsDeadlocked s b c (begin b' accepts e) (pending, h, k, p) = ground (arith, h, e)
step-IsDeadlocked s b c (deliver b' r waiting e f g) (pending, h, k, p) = (
  delete_key r waiting,
  refl,
  ground (
    arith,
    contains-delete_key r waiting s,
    eq_iff s r,
    λ (e : s ≡ r). ap b'.phase e,
    ap (λ l. contains (pending_of l) s) (sym e ∙ h),
  ),
  kept_phase b'.phase s r selecting forwarding p g (λ x. ground arith),
)
step-IsDeadlocked s b c (finish b' e) (pending, h, k, p) =
    ground (arith, ap (λ l. contains (pending_of l) s) (sym e ∙ h))
step-IsDeadlocked s b c (forward b' r f) (pending, h, k, p) =
    (pending, h, k, kept_phase b'.phase s r forwarding selecting p f (λ x. ground arith))
step-IsDeadlocked s b c (done b' r f) (pending, h, k, p) =
    (pending, h, k, kept_phase b'.phase s r selecting evicting p f (λ x. refl))
step-IsDeadlocked s b c (evict b' r e f) (pending, h, k, p) = ground (arith, h, e)

run-IsDeadlocked : (s : String) (b c : Broadcaster) → Run b c → IsDeadlocked s b → IsDeadlocked s c
run-IsDeadlocked s b c (stop b') h = h
run-IsDeadlocked s b c (more b' c' d x r) h =
    run-IsDeadlocked s c' d r (step-IsDeadlocked s b' c' x h)

contains-accepted :
    (accepts : String → Bool) (subs : List String) (s : String)
    → accepts s ≡ true
    → contains subs s ≡ true
    → contains (accepted accepts subs) s ≡ true
unfolding contains accepted
contains-accepted accepts [] s h k = k
contains-accepted accepts (r ∷ subs) s h k =
    ground (arith, eq_iff s r, λ (e : s ≡ r). ap accepts e, contains-accepted accepts subs s h)

held : (s : String) (b : Broadcaster) → IsDeadlocked s b → b.lock ≢ free
held s b (pending, h, k, p) e = ground (arith, sym h ∙ e)

-- A subscriber that waits in its select and accepts a message may stop the broadcaster for good: after
-- some steps, whatever steps follow, the mutex is never free again.
pub reader_deadlocks :
    (b : Broadcaster) (s : String) (accepts : String → Bool)
    → b.lock ≡ free
    → contains b.subs s ≡ true
    → accepts s ≡ true
    → b.phase s ≡ selecting
    → (c : Broadcaster) × Run b c × ((d : Broadcaster) → Run c d → d.lock ≢ free)
reader_deadlocks b s accepts h k a p =
    let c : Broadcaster = record b { lock = publishing (accepted accepts b.subs) } in
    let d : Broadcaster = record c { phase = set_phase s evicting c.phase } in
    let dead : IsDeadlocked s d = (
      accepted accepts b.subs,
      refl,
      contains-accepted accepts b.subs s a k,
      ground (arith, eq_refl s),
    ) in
    (
      d,
      more b c d (begin b accepts h) (more c d d (done c s p) (stop d)),
      λ e r. held s e (run-IsDeadlocked s d e r dead),
    )
