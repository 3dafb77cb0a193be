-- ===== src/Tests/Rollout.antt =====
-- A roll-out in a cluster of three members that run the old version.
use etcdops.Base.{
  ℕ, zero, suc, ◌<◌, String, eq_iff, Option, false, [], ◌∷◌, some, ◌≡◌, refl, sym, ◌∙◌, ap, inl,
  inr, arith,
}
use etcdops.Base.Int.{to_int, ◌-ℤ◌}
use etcdops.Base.Text.{decimal}
use etcdops.Controller.{skip_update}
use etcdops.Types.Cluster.{get_member, get_member_name}
use etcdops.Types.Member.{Member, MemberPhase, is_creating}
use etcdops.Env.{proceed}
use etcdops.Kube.{done, zero_time}
use etcdops.ClusterController.Members.{ensure_member}
use etcdops.ClusterController.Update.{update_members}
use etcdops.ClusterController.Update.Effects.{stored, member_key, IsCurrent}
use etcdops.ClusterController.Update.Calm.{AllCalm}
use etcdops.ClusterController.Update.Progress.{Rests, Rounds, turns, read_as, Rounds-ends}
use etcdops.ClusterController.Update.Orderly.{
  IsOrderly, Moves, OneMoves, Reachable, begins, passes, moves, Reachable-OneMoves,
}
use etcdops.Tests.Memory.{Store, memory, memory-IsLawful}
use etcdops.Tests.Memory.Faultless.{memory-Willing}
use etcdops.Tests.Memory.Stored.{memory-MemberStore, memory-lookup, found}
use etcdops.Tests.Clusters.{three, prepared_store}

-- Member `i`, asked for one version and running another
abbrev pub member : String → String → ℕ → Member
member asked runs i = record (get_member three i) {
  spec = record ((get_member three i).spec) { version = asked };
  status = record {
    version = runs;
    phase = MemberPhase.running;
    failed_time = zero_time;
    certificate_expires = false;
  };
}

abbrev pub old : ℕ → Member
old = member "3.5.0" "3.5.0"

abbrev pub world : Member → Member → Member → Store
world a b c = record prepared_store { clusters = three ∷ []; members = a ∷ b ∷ c ∷ [] }

-- What a run of the pass has to see through
unfoldable pub evaluation : Unit {0}
unfolding update_members ensure_member get_member get_member_name decimal skip_update to_int
    is_creating ◌-ℤ◌
evaluation = tt

abbrev pub start : Store
start = world (old 0) (old 1) (old 2)

unfoldable pub at : ℕ → Store → Option Member
at k w = found (member_key three k) w.members

pub stored_at : (k : ℕ) (w : Store) → stored memory memory-MemberStore three w k ≡ at k w
unfolding at
stored_at k w = memory-lookup (member_key three k) w

start-stored : (k : ℕ) → k < 3 → stored memory memory-MemberStore three start k ≡ some (old k)
unfolding evaluation at
start-stored zero _ = stored_at 0 start
start-stored (suc zero) _ = stored_at 1 start
start-stored (suc (suc zero)) _ = stored_at 2 start
start-stored (suc (suc (suc k))) small = absurd (omega (arith, small))

pub start-IsOrderly : IsOrderly memory memory-MemberStore three start
start-IsOrderly = (
  λ k small. (old k, start-stored k small),
  λ l m small there (asked, _).
      let same : old l ≡ m = ground (arith, start-stored l small) in
      let other : "3.5.0" ≡ "3.5.1" = ap (λ x. x.spec.version) same ∙ asked in
      ground (arith, eq_iff "3.5.0" "3.5.1", other),
)

-- The first pass asks the first member, and the member takes the version over.
abbrev pub after_pass : Store
after_pass = (update_members memory (record { world = start; self = three })).1.world

abbrev after_move : Store
after_move = world (member "3.5.1" "3.5.1" 0) (old 1) (old 2)

asked_first : after_pass ≡ world (member "3.5.1" "3.5.0" 0) (old 1) (old 2)
unfolding evaluation
asked_first = refl

after_pass-Moves : Moves memory memory-MemberStore three after_pass after_move
unfolding evaluation at
after_pass-Moves zero n small there =
    let known : some (member "3.5.1" "3.5.0" 0) ≡ some n = sym (stored_at 0 after_pass) ∙ there in
    let same : member "3.5.1" "3.5.0" 0 ≡ n = ground arith in
    (
      member "3.5.1" "3.5.1" 0,
      stored_at 0 after_move,
      ap (λ x. x.spec.version) same,
      inr (ap (λ x. x.spec.version) same),
    )
after_pass-Moves (suc zero) n small there =
    let known : some (old 1) ≡ some n = sym (stored_at 1 after_pass) ∙ there in
    let same : old 1 ≡ n = ground arith in
    (
      old 1,
      stored_at 1 after_move,
      ap (λ x. x.spec.version) same,
      inl (ap (λ x. x.status.version) same),
    )
after_pass-Moves (suc (suc zero)) n small there =
    let known : some (old 2) ≡ some n = sym (stored_at 2 after_pass) ∙ there in
    let same : old 2 ≡ n = ground arith in
    (
      old 2,
      stored_at 2 after_move,
      ap (λ x. x.spec.version) same,
      inl (ap (λ x. x.status.version) same),
    )
after_pass-Moves (suc (suc (suc k))) n small there = absurd (omega (arith, small))

rolling :
    Reachable memory memory-MemberStore three start
      (update_members memory (record { world = after_move; self = three })).1.world
rolling = passes three.status (moves (passes three.status begins) after_pass-Moves)

Reachable-OneMoves_example :
    OneMoves memory memory-MemberStore three
      (update_members memory (record { world = after_move; self = three })).1.world
Reachable-OneMoves_example =
    Reachable-OneMoves memory memory-MemberStore memory-IsLawful three start-IsOrderly rolling

-- Three members, each asked for one version and running another
abbrev versions : String → String → String → String → String → String → Store
versions a ra b rb c rc = world (member a ra 0) (member b rb 1) (member c rc 2)

abbrev at_rest : String → String → String → Store
at_rest a b c = versions a a b b c c

member_is : {m n : Member} → some m ≡ some n → n.spec.version ≡ m.spec.version
member_is {m} {n} h = let same : m ≡ n = ground arith in ap (λ x. x.spec.version) (sym same)

versions-Rests :
    (a ra b rb c rc : String)
    → Rests memory memory-MemberStore three (versions a ra b rb c rc) (at_rest a b c)
unfolding evaluation at
versions-Rests a ra b rb c rc zero n small there = (
  member a a 0,
  stored_at 0 (at_rest a b c),
  sym (member_is (sym (stored_at 0 (versions a ra b rb c rc)) ∙ there)),
  (refl, refl, refl),
)
versions-Rests a ra b rb c rc (suc zero) n small there = (
  member b b 1,
  stored_at 1 (at_rest a b c),
  sym (member_is (sym (stored_at 1 (versions a ra b rb c rc)) ∙ there)),
  (refl, refl, refl),
)
versions-Rests a ra b rb c rc (suc (suc zero)) n small there = (
  member c c 2,
  stored_at 2 (at_rest a b c),
  sym (member_is (sym (stored_at 2 (versions a ra b rb c rc)) ∙ there)),
  (refl, refl, refl),
)
versions-Rests a ra b rb c rc (suc (suc (suc k))) n small there = absurd (omega (arith, small))

at_rest-AllCalm : (a b c : String) → AllCalm memory memory-MemberStore three (at_rest a b c)
unfolding evaluation at
at_rest-AllCalm a b c zero small = (member a a 0, stored_at 0 (at_rest a b c), (refl, refl, refl))
at_rest-AllCalm a b c (suc zero) small =
    (member b b 1, stored_at 1 (at_rest a b c), (refl, refl, refl))
at_rest-AllCalm a b c (suc (suc zero)) small =
    (member c c 2, stored_at 2 (at_rest a b c), (refl, refl, refl))
at_rest-AllCalm a b c (suc (suc (suc k))) small = absurd (omega (arith, small))

abbrev done_world : Store
done_world = at_rest "3.5.1" "3.5.1" "3.5.1"

three-Rounds : Rounds memory memory-MemberStore three start 3 done_world
unfolding evaluation at
three-Rounds =
    turns three.status refl
      (turns three.status refl
        (turns three.status refl Rounds.begins
          (versions-Rests "3.5.1" "3.5.0" "3.5.0" "3.5.0" "3.5.0" "3.5.0"))
        (versions-Rests "3.5.1" "3.5.1" "3.5.1" "3.5.0" "3.5.0" "3.5.0"))
      (versions-Rests "3.5.1" "3.5.1" "3.5.1" "3.5.1" "3.5.1" "3.5.0")

Rounds-ends_example :
    ((k : ℕ) (m : Member)
      → k < 3
      → stored memory memory-MemberStore three done_world k ≡ some m
      → IsCurrent memory memory-MemberStore three m)
    × ((update_members memory (read_as memory memory-MemberStore three three.status done_world)).0
        ≡ done (proceed memory))
Rounds-ends_example =
    Rounds-ends memory memory-MemberStore memory-IsLawful memory-Willing three three.status
      (at_rest-AllCalm "3.5.0" "3.5.0" "3.5.0") three-Rounds refl
