-- ===== src/Redis/Memory.antt =====
-- A server in memory that keeps to what Redis/Api states of the commands, for the tests of
-- crates/crawlrs-frontier.
mod Fixtures
mod Examples
use crawlrs.Prelude.{
  ℕ, zero, suc, ◌+◌, ◌≤◌, ◌<◌, ◌≡◌, refl, Bool, true, false, not, ◌&&◌, List, [], ◌∷◌, ◌++◌, Option,
  none, some, arith, leb, if◌then◌else◌, contains, count, ◌==◌, ==_refl, list_eq, nat_eq, unwrap_or,
  length, take, All, Bool-cases, Option-cases, inl, inr, ◌⊎◌, sym, subst, ap, ◌∙◌,
}
use crawlrs.Prelude.Map
use crawlrs.Prelude.Map.{Map}
use crawlrs.Core.Error.{Text}
use crawlrs.Fakes.Accounting.{same_text}
use crawlrs.Redis.SortedSet.{
  due_members, due_members-All, due_members-once, due_members-has, take-All, count-take, take-whole,
  least, least-IsLeast, absent, found,
}
use crawlrs.Redis.Api.{
  ℤ, pos, negsuc, score_le, score_due, Keyspace, Redis, set_at, put_list, put_score, put_field,
  put_counter, first, behind, without, or_score,
}

pub record Memory : Type 0 where
  pub lists : Text → List Text
  pub zsets : Text → Map Text ℤ
  pub hashes : Text → Text → Option Text
  pub counters : Text → Option ℕ
  pub blooms : Text → Text → Bool

abbrev pub observe : Memory → Keyspace
observe r = record {
  lists = r.lists;
  zsets = λ key member. Map.get member (r.zsets key);
  hashes = r.hashes;
  counters = r.counters;
  blooms = r.blooms;
}

abbrev pub no_keys : Memory
no_keys = record {
  lists = λ k. [];
  zsets = λ k. [];
  hashes = λ k f. none;
  counters = λ k. none;
  blooms = λ k x. false;
}

abbrev bloomed : Text → Text → Memory → Memory
bloomed key x r =
    if r.blooms key x
    then r
    else record r { blooms = set_at key (set_at x true (r.blooms key)) r.blooms }

abbrev put_zset : Text → Map Text ℤ → Memory → Memory
put_zset key m r = record r { zsets = set_at key m r.zsets }

-- A sorted set that is written back with one member changed.
put_zset-observe :
    (key member : Text) (o : Option ℤ) (m : Map Text ℤ) (r : Memory)
    → ((j : Text) → Map.get j m ≡ (if member == j then o else Map.get j (r.zsets key)))
    → observe (put_zset key m r) ≡ put_score key member o (observe r)
put_zset-observe key member o m r same = λ i. record (observe r) { zsets = λ k j. at k j i }
  where
    at :
        (k j : Text)
        → Map.get j (set_at key m r.zsets k)
          ≡ set_at key
              (set_at member o (λ x. Map.get x (r.zsets key)))
              (λ y x. Map.get x (r.zsets y))
              k
              j
    at k j = elim (Bool-cases (key == k)) [ inl e ↦ rw e (same j) | inr e ↦ rw e ]

bloomed_effect :
    (key x : Text) (r : Memory)
    → observe (bloomed key x r) ≡ record (observe r) { blooms = (bloomed key x r).blooms }
bloomed_effect key x r = elim (Bool-cases (r.blooms key x)) [
  | inl e ↦ rw e refl
  | inr e ↦ rw e refl
]

bloomed_keeps :
    (key x k y : Text) (r : Memory) → r.blooms k y ≡ true → (bloomed key x r).blooms k y ≡ true
bloomed_keeps key x k y r h = elim (Bool-cases (r.blooms key x)) [
  | inl e ↦ rw e h
  | inr e ↦ rw e (set_keeps (Bool-cases (key == k)))
]
  where
    set_keeps :
        ((key == k) ≡ true) ⊎ ((key == k) ≡ false)
        → set_at key (set_at x true (r.blooms key)) r.blooms k y ≡ true
    set_keeps (inr e) = rw e h
    set_keeps (inl e) =
        rw e (
          rw ((same_text key k).0 e) (elim (Bool-cases (x == y)) [ inl f ↦ rw f | inr f ↦ rw f h ]))

bloomed_member : (key x : Text) (r : Memory) → (bloomed key x r).blooms key x ≡ true
bloomed_member key x r = elim (Bool-cases (r.blooms key x)) [
  | inl e ↦ rw e e
  | inr e ↦ rw e (rw (==_refl key) (rw (==_refl x)))
]

-- The server.
pub memory : Redis Memory
memory = record {
  obs = observe;
  lpop = λ key r.
      (first (r.lists key), record r { lists = set_at key (behind (r.lists key)) r.lists });
  lpop_reply = λ key r. refl;
  lpop_effect = λ key r. refl;
  rpush = λ key x r. record r { lists = set_at key (r.lists key ++ x ∷ []) r.lists };
  rpush_effect = λ key x r. refl;
  lrem = λ key x r. record r { lists = set_at key (without x (r.lists key)) r.lists };
  lrem_effect = λ key x r. refl;
  zadd = λ key z m r. put_zset key (Map.insert m z (r.zsets key)) r;
  zadd_effect = λ key z m r.
      put_zset-observe key m (some z) (Map.insert m z (r.zsets key)) r
        (λ j. Map.get-insert m j z (r.zsets key));
  zadd_nx = λ key z m r. put_zset key (Map.or_insert m z (r.zsets key)) r;
  zadd_nx_effect = λ key z m r.
      put_zset-observe key m (some (unwrap_or (Map.get m (r.zsets key)) z))
        (Map.or_insert m z (r.zsets key)) r (λ j. Map.get-or_insert m j z (r.zsets key));
  zrem = λ key m r. put_zset key (Map.remove m (r.zsets key)) r;
  zrem_effect = λ key m r.
      put_zset-observe key m none (Map.remove m (r.zsets key)) r
        (λ j. Map.get-remove m j (r.zsets key));
  zrange_by_score = λ key now limit r. take limit (due_members now (r.zsets key) (r.zsets key));
  zrange_by_score_due = λ key now limit r.
      take-All _ limit (due_members now (r.zsets key) (r.zsets key))
        (due_members-All now (r.zsets key) (r.zsets key));
  zrange_by_score_once = λ key now limit r m. omega (
    arith,
    count-take m limit (due_members now (r.zsets key) (r.zsets key)),
    due_members-once now (r.zsets key) (r.zsets key) m,
  );
  zrange_by_score_all = λ key now limit r m z few e d.
      rw (take-whole limit (due_members now (r.zsets key) (r.zsets key)) few)
        (due_members-has now (r.zsets key) (r.zsets key) m z z e e d);
  zrange_first = λ key r. least (r.zsets key) (r.zsets key);
  zrange_first_none = λ key r m e.
      absent (r.zsets key) m (Map.get m (r.zsets key)) (least (r.zsets key) (r.zsets key)) refl e
        (least-IsLeast (r.zsets key) (r.zsets key));
  zrange_first_some = λ key r m z e.
      let p =
        found (r.zsets key) m z (least (r.zsets key) (r.zsets key)) e
          (least-IsLeast (r.zsets key) (r.zsets key)) in
      (p.0, λ j y f. p.1 j y y f f);
  hset = λ key field value r. record r {
    hashes = set_at key (set_at field (some value) (r.hashes key)) r.hashes;
  };
  hset_effect = λ key field value r. refl;
  hget = λ key field r. r.hashes key field;
  hget_reply = λ key field r. refl;
  hdel =
      λ key field r. record r { hashes = set_at key (set_at field none (r.hashes key)) r.hashes };
  hdel_effect = λ key field r. refl;
  get = λ key r. r.counters key;
  get_reply = λ key r. refl;
  incr = λ key r. record r {
    counters = set_at key (some (unwrap_or (r.counters key) 0 + 1)) r.counters;
  };
  incr_effect = λ key r. refl;
  bf_add = λ key x r. (not (r.blooms key x), bloomed key x r);
  bf_add_reply = λ key x r. refl;
  bf_add_effect = λ key x r. bloomed_effect key x r;
  bf_add_member = λ key x r. bloomed_member key x r;
  bf_add_keeps = λ key x k y r e. bloomed_keeps key x k y r e;
  bf_add_known = λ key x r e. rw e refl;
}
