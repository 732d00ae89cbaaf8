-- ===== src/Redis/Promotion.antt =====
-- crates/crawlrs-frontier/src/scripts/promote.lua against the promotion of a tick in
-- crates/crawlrs-fakes/src/frontier.rs.
use crawlrs.Prelude.{
  ℕ, ◌≤◌, ◌<◌, ◌≡◌, refl, sym, ap, subst, ◌∙◌, Bool, true, false, List, [], ◌∷◌, Option, none, some,
  arith, inl, inr, contains, count, length, All, list_eq, nat_eq, Bool-cases, Option-cases, ◌==◌,
  leb,
}
use crawlrs.Prelude.Map
use crawlrs.Prelude.Map.{Map}
use crawlrs.Core.Error.{Text}
use crawlrs.Fakes.Shard.{ShardState, due_hosts, promote_all}
use crawlrs.Fakes.Accounting.{same_text}
use crawlrs.Fakes.Exclusion.{contains_of_count, count-due_hosts}
use crawlrs.Redis.Api.{Redis, Postcard}
use crawlrs.Redis.Keys
use crawlrs.Redis.Keys.{KeyPrefix}
use crawlrs.Redis.Views.{Views}
use crawlrs.Redis.Scripts
use crawlrs.Redis.Wake.{IsDue, promote-Refines}

abbrev has_come : ℕ → Option ℕ → Bool
has_come now none = false
has_come now (some at) = leb at now

-- Of the hosts that are not ready, a tick promotes those whose wake-time has come.
contains-due_hosts :
    (h : Text) (now : ℕ) (ready : List Text) (wake : Map Text ℕ)
    → Map.entries h wake ≤ 1
    → contains ready h ≡ false
    → contains (due_hosts now ready wake) h ≡ has_come now (Map.get h wake)
unfolding due_hosts Map.get Map.entries
contains-due_hosts h now ready [] d away = refl
contains-due_hosts h now ready ((x, score) ∷ wake) d away = elim (Bool-cases (x == h)) [
  | inl same ↦ ground (
    arith,
    same,
    same_text x h,
    same_text h x,
    (count-due_hosts h now ready wake).0,
    contains_of_count h (due_hosts now ready wake),
  )
  | inr other ↦
      ground (arith, other, contains-due_hosts h now ready wake, same_text x h, same_text h x)
]

module _ {R Url : Type 0} (redis : Redis R) (postcard : Postcard Url) (keys : KeyPrefix)
    (shard : ℕ) where
  abbrev Due : ℕ → ShardState Url → Text → Type 0
  Due = IsDue redis postcard keys shard

  moved-due_hosts :
      (now : ℕ) (s : ShardState Url) (hosts : List Text) (h : Text)
      → Map.Distinct s.wake
      → All (Due now s) hosts
      → (Due now s h → contains hosts h ≡ true)
      → contains s.ready h ≡ false
      → contains hosts h ≡ contains (due_hosts now s.ready s.wake) h
  moved-due_hosts now s hosts h distinct due all away =
      by_time (Map.get h s.wake) refl
      ∙ sym (contains-due_hosts h now s.ready s.wake (distinct h) away)
    where
      member_due : (hs : List Text) → All (Due now s) hs → contains hs h ≡ true → Due now s h
      member_due [] due e = absurd cc
      member_due (x ∷ hs) due e = elim (Bool-cases (h == x)) [
        | inl same ↦ subst (Due now s) (sym ((same_text h x).0 same)) due.0
        | inr other ↦ member_due hs due.1 (ground (arith, e, other))
      ]

      by_time : (o : Option ℕ) → Map.get h s.wake ≡ o → contains hosts h ≡ has_come now o
      by_time o e = elim (Bool-cases (contains hosts h)) [
        | inl moved ↦
            let (at, found, come) = member_due hosts due moved in
            moved ∙ sym (ap (has_come now) (sym e ∙ found) ∙ come)
        | inr left ↦ elim (Bool-cases (has_come now o)) [
          | inr early ↦ left ∙ sym early
          | inl come ↦ elim (Option-cases o) [
            | inl z ↦ absurd (ground (arith, come, z))
            | inr (at, z) ↦
                absurd (ground (arith, left, all (at, e ∙ z, sym (ap (has_come now) z) ∙ come)))
          ]
        ]
      ]

  -- promote.lua moves hosts whose wake-time has come from `wake` to `ready`, each once, and counts
  -- them; the keys then hold what `promote_all` makes of these hosts. If they are fewer than the limit,
  -- every host whose wake-time has come is among them, and those of them that were not ready are the
  -- hosts that a tick of the in-memory frontier promotes, where `wake` has one entry for each host. A
  -- host that was ready is moved too, which a tick leaves.
  pub promote-Ticks :
      (now limit : ℕ) (r : R) (s : ShardState Url)
      → Views postcard keys shard (redis.obs r) s
      → Map.Distinct s.wake
      → let o = Scripts.promote redis (Keys.wake keys shard) (Keys.ready keys shard) now limit r in
        (hosts : List Text) × (o.0 ≡ length hosts)
        × All (IsDue redis postcard keys shard now s) hosts
        × ((host : Text) → count host hosts ≤ 1)
        × ((host : Text)
            → length hosts < limit
            → IsDue redis postcard keys shard now s host
            → contains hosts host ≡ true)
        × ((host : Text)
            → length hosts < limit
            → contains s.ready host ≡ false
            → contains hosts host ≡ contains (due_hosts now s.ready s.wake) host)
        × Views postcard keys shard (redis.obs o.1) (promote_all hosts s)
  promote-Ticks now limit r s v distinct =
      let (hosts, counted, due, once, all, view) =
        promote-Refines redis postcard keys shard now limit r s v in
      (
        hosts,
        counted,
        due,
        once,
        all,
        λ host few away. moved-due_hosts now s hosts host distinct due (all host few) away,
        view,
      )
