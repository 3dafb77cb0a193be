-- ===== src/Console/Waiting.antt =====
-- pkg/cli/client.go: `Wait` as two goroutines, one that reads the events and one that shows a spinner,
-- with an unbuffered channel in between. `wait` of Console.antt is what they promise.
pub mod Returns
use etcdops.Base.{
  ℕ, zero, suc, ◌%◌, String, ◌<>◌, List, [], ◌∷◌, Option, none, some, ◌≡◌, refl, sym, ◌∙◌, ap, ◌↔◌,
  arith, inl, inr, Option-cases,
}
use etcdops.Kube.{Time, Duration}
use etcdops.Types.Cluster.{Cluster}
use etcdops.BackupController.Clock.{sub_time}
use etcdops.Console.{Event, wait}

-- The goroutine that reads: in its loop, with the events that are still to come, at the send, or at
-- its end
pub data Reader : Type 0 where
  reading : List Event → Reader
  sending : Cluster → Reader
  ended : Reader

-- Both goroutines: the second has the rounds of its loop, the lines that it has printed, the last one
-- first, and its result when it has returned.
pub record Waiting : Type 0 where
  pub reader : Reader
  pub rounds : ℕ
  pub lines : List String
  pub result : Option Cluster

-- `spinner[i%len(spinner)]`
unfoldable pub spinner_at : ℕ → String
spinner_at i = elim (i % 3) [ zero ↦ ".  " | suc zero ↦ ".. " | suc (suc k) ↦ "..." ]

unfoldable pub begin : List Event → Waiting
begin events = record { reader = reading events; rounds = 0; lines = []; result = none }

-- A round of `for event := range w.watcher.ResultChan()`
unfoldable pub read_event : (Event → Option Cluster) → Event → List Event → Reader
read_event condition e events = elim (condition e) [ some c ↦ sending c | none ↦ reading events ]

-- How a duration is written, rounded to seconds: `Round(time.Second)` and `%s`
module _ (show_seconds : Duration → String) (now : Time) where
  -- `case tick := <-w.ticker.C`
  unfoldable pub tick : Time → Waiting → Waiting
  unfolding spinner_at
  tick t s = record s {
    rounds = suc s.rounds;
    lines = ("\r" <> (spinner_at s.rounds <> (" " <> show_seconds (sub_time t now)))) ∷ s.lines;
  }

  -- `case obj := <-done`, with the end of the goroutine that sends
  unfoldable pub receive : Time → Cluster → Waiting → Waiting
  receive t c s = record s {
    reader = ended;
    lines = ("\rdone (" <> (show_seconds (sub_time t now) <> ")\n")) ∷ s.lines;
    result = some c;
  }

  module _ (condition : Event → Option Cluster) where
    -- A step of one of the goroutines, or of both at the channel
    pub data Step (s : Waiting) : Waiting → Type 0 where
      reads :
          (e : Event) (events : List Event)
          → s.reader ≡ reading (e ∷ events)
          → Step s (record s { reader = read_event condition e events })
      closes : s.reader ≡ reading [] → Step s (record s { reader = ended })
      receives :
          (t : Time) (c : Cluster) → s.reader ≡ sending c → s.result ≡ none → Step s (receive t c s)
      ticks : (t : Time) → s.result ≡ none → Step s (tick t s)

    pub data Leads (s : Waiting) : Waiting → Type 0 where
      here : Leads s s
      then_step : {u v : Waiting} → Leads s u → Step u v → Leads s v
