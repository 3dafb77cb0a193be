-- ===== src/Console/Waiting/Returns.antt =====
-- What the two goroutines of `Wait` come to (pkg/cli/client.go), in any interleaving.
use etcdops.Base.{
  ℕ, zero, suc, String, ◌<>◌, List, [], ◌∷◌, Option, none, some, ◌≡◌, refl, sym, ◌∙◌, ap, subst,
  ◌↔◌, arith, inl, inr, Option-cases,
}
use etcdops.Kube.{Time, Duration}
use etcdops.Types.Cluster.{Cluster}
use etcdops.Console.{Event, wait}
use etcdops.Console.Waiting.{
  Reader, reading, sending, ended, Waiting, spinner_at, begin, read_event, tick, receive, Step,
  reads, closes, receives, ticks, Leads, here, then_step,
}

-- The lines of the spinner, the last one first
abbrev pub Spins : ℕ → List String → Type 0
Spins zero [] = Unit
Spins zero (l ∷ ls) = ⊥
Spins (suc i) [] = ⊥
Spins (suc i) (l ∷ ls) =
    ((elapsed : String) × (l ≡ "\r" <> (spinner_at i <> (" " <> elapsed)))) × Spins i ls

-- What stands on the screen: the lines of the spinner, and at the end that it is done
abbrev pub Shows : Waiting → Type 0
Shows s = elim (s.result) [
  | none ↦ Spins s.rounds s.lines
  | some c ↦
      (elapsed : String) × (ls : List String) × (s.lines ≡ ("\rdone (" <> (elapsed <> ")\n")) ∷ ls)
      × Spins s.rounds ls
]

module _ (show_seconds : Duration → String) (now : Time) (condition : Event → Option Cluster) where
  abbrev Goes : Waiting → Waiting → Type 0
  Goes = Leads show_seconds now condition

  -- The goroutines have done as much of `wait` as the reader says.
  abbrev Promises : Reader → Option Cluster → Option Cluster → Type 0
  Promises (reading events) r o = (wait condition events ≡ o) × (r ≡ none)
  Promises (sending c) r o = (o ≡ some c) × (r ≡ none)
  Promises ended r o = r ≡ o

  read_event-Promises :
      (e : Event) (events : List Event) (r o : Option Cluster)
      → Promises (reading (e ∷ events)) r o
      → Promises (read_event condition e events) r o
  unfolding read_event wait
  read_event-Promises e events r o (h, open_still) = elim (Option-cases (condition e)) [
    | inl p ↦
        let goes : read_event condition e events ≡ reading events = ground arith in
        subst (λ x. Promises x r o) (sym goes) (ground arith, open_still)
    | inr (c, p) ↦
        let goes : read_event condition e events ≡ sending c = ground arith in
        subst (λ x. Promises x r o) (sym goes) (ground arith, open_still)
  ]

  Step-Promises :
      (o : Option Cluster) (s v : Waiting)
      → Step show_seconds now condition s v
      → Promises s.reader s.result o
      → Promises v.reader v.result o
  unfolding tick receive wait
  Step-Promises o s v (reads e events at) h =
      read_event-Promises e events s.result o (subst (λ x. Promises x s.result o) at h)
  Step-Promises o s v (closes at) h =
      let (nothing, open_still) = subst (λ x. Promises x s.result o) at h in open_still ∙ nothing
  Step-Promises o s v (receives t c at _) h =
      let (promised, _) = subst (λ x. Promises x s.result o) at h in sym promised
  Step-Promises o s v (ticks t _) h = h

  Step-Shows : (s v : Waiting) → Step show_seconds now condition s v → Shows s → Shows v
  unfolding tick receive
  Step-Shows s v (reads e events at) h = h
  Step-Shows s v (closes at) h = h
  Step-Shows s v (receives t c at waits) h =
      let spins = subst (λ r. Shows (record s { result = r })) waits h in
      (show_seconds _, s.lines, refl, spins)
  Step-Shows s v (ticks t waits) h =
      let spins = subst (λ r. Shows (record s { result = r })) waits h in
      subst (λ r. Shows (record (tick show_seconds now t s) { result = r })) (sym waits)
        ((show_seconds _, refl), spins)

  Goes-Promises :
      (events : List Event) (s v : Waiting)
      → Goes s v
      → Promises s.reader s.result (wait condition events)
      → Promises v.reader v.result (wait condition events)
  Goes-Promises events s v here h = h
  Goes-Promises events s v (then_step {u = u} before step) h =
      Step-Promises (wait condition events) u v step (Goes-Promises events s u before h)

  Goes-Shows : (s v : Waiting) → Goes s v → Shows s → Shows v
  Goes-Shows s v here h = h
  Goes-Shows s v (then_step {u = u} before step) h = Step-Shows u v step (Goes-Shows s u before h)

  starting_with : {s u v : Waiting} → Step show_seconds now condition s u → Goes u v → Goes s v
  starting_with step here = then_step here step
  starting_with step (then_step more last) = then_step (starting_with step more) last

  -- The world of a wait that has come to its end
  Ends : Waiting → Cluster → Type 0
  Ends s c = (v : Waiting) × Goes s v × (v.result ≡ some c)

  sent-Ends :
      (t : Time) (s : Waiting) (c : Cluster) → s.reader ≡ sending c → s.result ≡ none → Ends s c
  unfolding Ends receive
  sent-Ends t s c at waits =
      (receive show_seconds now t c s, then_step here (receives t c at waits), refl)

  read-Ends :
      (t : Time) (events : List Event) (s : Waiting) (c : Cluster)
      → s.reader ≡ reading events
      → s.result ≡ none
      → wait condition events ≡ some c
      → Ends s c
  unfolding Ends wait read_event
  read-Ends t [] s c at waits h = absurd (ground arith)
  read-Ends t (e ∷ events) s c at waits h =
      let u : Waiting = record s { reader = read_event condition e events } in
      let step : Step show_seconds now condition s u = reads e events at in
      elim (Option-cases (condition e)) [
        | inr (x, p) ↦
            let same : x ≡ c = ground arith in
            let (v, goes, done_it) = sent-Ends t u c (ground (arith, same)) waits in
            (v, starting_with step goes, done_it)
        | inl p ↦
            let (v, goes, done_it) = read-Ends t events u c (ground arith) waits (ground arith) in
            (v, starting_with step goes, done_it)
      ]

  promised-Ends :
      (t : Time) (s : Waiting) (o : Option Cluster) (c : Cluster) (r : Reader)
      → s.reader ≡ r
      → Promises r s.result o
      → o ≡ some c
      → Ends s c
  unfolding Ends
  promised-Ends t s o c (reading events) at (h, waits) found =
      read-Ends t events s c at waits (h ∙ found)
  promised-Ends t s o c (sending x) at (h, waits) found =
      let same : x ≡ c = ground arith in sent-Ends t s c (at ∙ ap sending same) waits
  promised-Ends t s o c ended at h found = (s, here, h ∙ found)

  -- A result is what was promised.
  result-promised :
      (r : Reader) (result o : Option Cluster) (c : Cluster)
      → result ≡ some c
      → Promises r result o
      → o ≡ some c
  result-promised (reading events) result o c there (_, waits) = absurd (ground arith)
  result-promised (sending x) result o c there (_, waits) = absurd (ground arith)
  result-promised ended result o c there h = sym h ∙ there

  -- At each point of a wait for an event, in whatever order the two goroutines have run and whatever
  -- the clock says, it can still come to its end with an object exactly if that is the first object
  -- to meet the condition: it never returns another one, and is never
  -- stuck before it. What it has printed are lines of the spinner, in turn, and at the end one that
  -- says so.
  pub Waiting-returns :
      (events : List Event) (s : Waiting) (t : Time) (c : Cluster)
      → Leads show_seconds now condition (begin events) s
      → (((v : Waiting) × Leads show_seconds now condition s v × (v.result ≡ some c))
          ↔ (wait condition events ≡ some c))
        × Shows s
  unfolding Ends begin
  Waiting-returns events s t c so_far =
      let promised = Goes-Promises events (begin events) s so_far (refl, refl) in
      (
        (
          λ (v, goes, done_it).
              result-promised v.reader v.result (wait condition events) c done_it
                (Goes-Promises events s v goes promised),
          λ found. promised-Ends t s (wait condition events) c s.reader refl promised found,
        ),
        Goes-Shows (begin events) s so_far tt,
      )
