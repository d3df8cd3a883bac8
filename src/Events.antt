-- ===== src/Events.antt =====
-- pkg/common/broadcast.go: `Broadcaster`, with the goroutines of `Store.Watch` and `Store.Log`
-- (pkg/common/model.go) that read from it, as steps that interleave. A channel is named by a text.
pub mod Deadlock
pub mod Open
mod Tests
use autok3s.Base.{
  String, Bool, true, false, List, [], ◌∷◌, if◌then◌else◌, ◌==◌, ◌≡◌, contains, delete_key,
}

-- What a reader does: its channel is not made yet, it waits in its select, it passes a message on, it
-- has left its loop and calls `Evict`, or its channel is closed.
pub data Phase : Type 0 where
  fresh : Phase
  selecting : Phase
  forwarding : Phase
  evicting : Phase
  closed : Phase

-- The mutex `m`: free, or held by `Broadcast`, with the channels that still wait for a receiver.
pub data Lock : Type 0 where
  free : Lock
  publishing : List String → Lock

abbrev pub pending_of : Lock → List String
pending_of free = []
pending_of (publishing pending) = pending

pub record Broadcaster : Type 0 where
  pub subs : List String
  pub phase : String → Phase
  pub lock : Lock

abbrev pub set_phase : String → Phase → (String → Phase) → String → Phase
set_phase s p phase n = if n == s then p else phase n

-- The subscribers whose function accepts the message.
unfoldable pub accepted : (String → Bool) → List String → List String
accepted accepts [] = []
accepted accepts (s ∷ subs) =
    let rest = accepted accepts subs in if accepts s then s ∷ rest else rest

-- `NewBroadcaster`.
abbrev pub new_broadcaster : Broadcaster
new_broadcaster = record { subs = []; phase = λ s. fresh; lock = free }

pub data Step : Broadcaster → Broadcaster → Type 0 where
  -- `Register`
  register :
      (b : Broadcaster) (s : String)
      → b.lock ≡ free
      → b.phase s ≡ fresh
      → Step b (record b { subs = s ∷ b.subs; phase = set_phase s selecting b.phase })
  -- `Broadcast` takes the mutex and starts a `publish` for each subscriber
  begin :
      (b : Broadcaster) (accepts : String → Bool)
      → b.lock ≡ free
      → Step b (record b { lock = publishing (accepted accepts b.subs) })
  -- `s <- v`, which needs a reader in its select
  deliver :
      (b : Broadcaster) (s : String) (pending : List String)
      → b.lock ≡ publishing pending
      → contains pending s ≡ true
      → b.phase s ≡ selecting
      → Step b (record b {
        phase = set_phase s forwarding b.phase;
        lock = publishing (delete_key s pending);
      })
  -- `wg.Wait()` returns
  finish : (b : Broadcaster) → b.lock ≡ publishing [] → Step b (record b { lock = free })
  -- a reader passes its message on and goes back to its select
  forward :
      (b : Broadcaster) (s : String)
      → b.phase s ≡ forwarding
      → Step b (record b { phase = set_phase s selecting b.phase })
  -- the context of a reader is done
  done :
      (b : Broadcaster) (s : String)
      → b.phase s ≡ selecting
      → Step b (record b { phase = set_phase s evicting b.phase })
  -- `Evict`, which needs the mutex
  evict :
      (b : Broadcaster) (s : String)
      → b.lock ≡ free
      → b.phase s ≡ evicting
      → Step b (record b { subs = delete_key s b.subs; phase = set_phase s closed b.phase })

-- Any number of steps.
pub data Run : Broadcaster → Broadcaster → Type 0 where
  stop : (b : Broadcaster) → Run b b
  more : (b c d : Broadcaster) → Step b c → Run c d → Run b d
