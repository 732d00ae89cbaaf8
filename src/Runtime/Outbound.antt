-- ===== src/Runtime/Outbound.antt =====
-- crates/crawlrs-runtime/src/worker.rs: `compute_outbound`, which links of a page are followed.
use crawlrs.Prelude.{
  ℕ, ◌+◌, ◌-◌, ◌%◌, ◌^◌, ◌≤◌, ◌<◌, ◌≡◌, refl, Bool, true, false, List, [], ◌∷◌, Option, none, some,
  arith, All, ltb, if◌then◌else◌, list_eq, nat_eq, Bool-cases, Option-cases, inl, inr, ◌⊎◌, ◌==◌,
}
use crawlrs.Core.Ascii.{codes}
use crawlrs.Fakes.Accounting.{same_text}
use crawlrs.Core.Error.{Text}
use crawlrs.Core.Types.{UrlApi, UrlEntry}
use crawlrs.Core.Url.{is_http}
use crawlrs.Runtime.Effects.{ParsedDocument}

pub record OutboundPartition (Url : Type 0) : Type 0 where
  pub kept : List (UrlEntry Url)
  pub depth_skipped : List (UrlEntry Url)

module _ {Url : Type 0} (api : UrlApi Url) (depth_cap : Text → Option ℕ) where
  -- parent.depth + 1 on u32, which wraps in a release build (a debug build stops there).
  unfoldable pub depth_below : UrlEntry Url → ℕ
  depth_below parent = (parent.depth + 1) % 2 ^ 32

  abbrev pub child : UrlEntry Url → Url → UrlEntry Url
  child parent url = record {
    url = url;
    depth = depth_below parent;
    discovered_from = some parent.url;
  }

  -- cap.is_some_and(|limit| new_depth > limit)
  unfoldable pub too_deep : ℕ → Url → Bool
  too_deep new_depth url = elim (api.host url) [
    | none ↦ false
    | some host ↦ elim (depth_cap host) [ none ↦ false | some limit ↦ ltb limit new_depth ]
  ]

  unfoldable pub partition_links : UrlEntry Url → List Url → OutboundPartition Url
  unfolding too_deep depth_below
  partition_links parent [] = record { kept = []; depth_skipped = [] }
  partition_links parent (url ∷ urls) =
      let rest = partition_links parent urls in
      if is_http api url
      then (if too_deep (depth_below parent) url
          then record rest { depth_skipped = child parent url ∷ rest.depth_skipped }
          else record rest { kept = child parent url ∷ rest.kept })
      else rest

  unfoldable pub compute_outbound : UrlEntry Url → ParsedDocument Url → OutboundPartition Url
  unfolding partition_links
  compute_outbound parent doc = partition_links parent doc.outbound_links

  -- The depth exceeds a cap that the host of the URL has; or every cap of its host admits it.
  abbrev pub Exceeds : ℕ → Url → Type 0
  Exceeds d url =
      (host : Text) × (limit : ℕ) × (api.host url ≡ some host)
      × (depth_cap host ≡ some limit)
      × (limit < d)

  abbrev pub Admits : ℕ → Url → Type 0
  Admits d url =
      (host : Text) (limit : ℕ) → api.host url ≡ some host → depth_cap host ≡ some limit → d ≤ limit

  -- The scheme is http or https.
  abbrev pub IsWeb : Url → Type 0
  IsWeb url = (api.scheme url ≡ codes "http") ⊎ (api.scheme url ≡ codes "https")

  -- Which entries the links of a page become: each link is followed, skipped or left out.
  pub data Follows (parent : UrlEntry Url)
      : List Url → List (UrlEntry Url) → List (UrlEntry Url) → Type 0 where
    no_links : Follows parent [] [] []
    left_out :
        (url : Url) (urls : List Url) (kept skipped : List (UrlEntry Url))
        → ¬ IsWeb url
        → Follows parent urls kept skipped
        → Follows parent (url ∷ urls) kept skipped
    followed :
        (url : Url) (urls : List Url) (kept skipped : List (UrlEntry Url))
        → IsWeb url
        → Admits (depth_below parent) url
        → Follows parent urls kept skipped
        → Follows parent (url ∷ urls) (child parent url ∷ kept) skipped
    too_far :
        (url : Url) (urls : List Url) (kept skipped : List (UrlEntry Url))
        → IsWeb url
        → Exceeds (depth_below parent) url
        → Follows parent urls kept skipped
        → Follows parent (url ∷ urls) kept (child parent url ∷ skipped)

  is_http-IsWeb : (url : Url) → is_http api url ≡ true → IsWeb url
  unfolding is_http
  is_http-IsWeb url e = elim (Bool-cases (api.scheme url == codes "http")) [
    | inl plain ↦ inl ((same_text (api.scheme url) (codes "http")).0 plain)
    | inr other ↦ inr ((same_text (api.scheme url) (codes "https")).0 (ground (arith, e, other)))
  ]

  is_http-not : (url : Url) → is_http api url ≡ false → ¬ IsWeb url
  unfolding is_http
  is_http-not url e (inl plain) =
      ground (arith, e, (same_text (api.scheme url) (codes "http")).1 plain)
  is_http-not url e (inr secure) =
      ground (arith, e, (same_text (api.scheme url) (codes "https")).1 secure)

  too_deep-Exceeds : (d : ℕ) (url : Url) → too_deep d url ≡ true → Exceeds d url
  unfolding too_deep
  too_deep-Exceeds d url deep = elim (Option-cases (api.host url)) [
    | inl z ↦ absurd (ground (arith, deep, z))
    | inr (host, at) ↦ elim (Option-cases (depth_cap host)) [
      | inl z ↦ absurd (ground (arith, deep, z, at))
      | inr (limit, capped) ↦ (host, limit, at, capped, ground (arith, deep, at, capped))
    ]
  ]

  not_too_deep :
      (d : ℕ) (url : Url) (host : Text) (limit : ℕ)
      → too_deep d url ≡ false
      → api.host url ≡ some host
      → depth_cap host ≡ some limit
      → d ≤ limit
  unfolding too_deep
  not_too_deep d url host limit near h c = ground arith

  partition_links-Follows :
      (parent : UrlEntry Url) (urls : List Url)
      → Follows parent urls
          (partition_links parent urls).kept
          (partition_links parent urls).depth_skipped
  unfolding partition_links
  partition_links-Follows parent [] = no_links
  partition_links-Follows parent (url ∷ urls) = elim (Bool-cases (is_http api url)) [
    | inr mail ↦
        rw (mail, partition_links)
          (left_out url urls _ _ (is_http-not url mail) (partition_links-Follows parent urls))
    | inl web ↦ elim (Bool-cases (too_deep (depth_below parent) url)) [
      | inl deep ↦
          rw (web, deep, partition_links)
            (too_far url urls _ _ (is_http-IsWeb url web)
              (too_deep-Exceeds (depth_below parent) url deep)
              (partition_links-Follows parent urls))
      | inr near ↦
          rw (web, near, partition_links)
            (followed url urls _ _ (is_http-IsWeb url web)
              (λ host limit h c. not_too_deep (depth_below parent) url host limit near h c)
              (partition_links-Follows parent urls))
    ]
  ]

  -- Each link of a page, in its order, is followed if its scheme is http or https and no depth cap
  -- of its host lies below its depth, is skipped if one does, and is left out for another scheme. The
  -- depth is that of the parent plus one, modulo 2^32.
  pub compute_outbound_lem :
      (parent : UrlEntry Url) (doc : ParsedDocument Url)
      → Follows parent doc.outbound_links
          (compute_outbound parent doc).kept
          (compute_outbound parent doc).depth_skipped
  unfolding compute_outbound
  compute_outbound_lem parent doc = partition_links-Follows parent doc.outbound_links

  -- An entry below its parent, with an HTTP URL, within the depth cap of its host.
  abbrev pub WithinCap : UrlEntry Url → UrlEntry Url → Type 0
  WithinCap parent e =
      (e.depth ≡ (parent.depth + 1) % 2 ^ 32)
      × (parent.depth < 2 ^ 32 - 1 → e.depth ≡ parent.depth + 1)
      × (e.discovered_from ≡ some parent.url)
      × IsWeb e.url
      × ((host : Text) (limit : ℕ)
          → api.host e.url ≡ some host
          → depth_cap host ≡ some limit
          → e.depth ≤ limit)

  kept-WithinCap :
      (parent : UrlEntry Url) (urls : List Url)
      → All (WithinCap parent) (partition_links parent urls).kept
  unfolding partition_links too_deep
  kept-WithinCap parent [] = tt
  kept-WithinCap parent (url ∷ urls) = elim (Bool-cases (is_http api url)) [
    | inr mail ↦ rw (mail, partition_links) (kept-WithinCap parent urls)
    | inl web ↦ elim (Bool-cases (too_deep (depth_below parent) url)) [
      | inl deep ↦ rw (web, deep, partition_links) (kept-WithinCap parent urls)
      | inr near ↦
          rw (web, near, partition_links)
            (
              (
                unfold depth_below in refl,
                λ small. unfold depth_below in omega arith,
                refl,
                is_http-IsWeb url web,
                λ host limit h c. not_too_deep (depth_below parent) url host limit near h c,
              ),
              kept-WithinCap parent urls,
            )
    ]
  ]

  -- Every followed link names its parent, has the parent's depth plus one, modulo 2^32 (so it is one
  -- step deeper unless the parent's depth is the greatest u32), has the scheme http or https, and does
  -- not exceed the depth cap of its host.
  pub compute_outbound-WithinCap :
      (parent : UrlEntry Url) (doc : ParsedDocument Url)
      → All (WithinCap parent) (compute_outbound parent doc).kept
  unfolding compute_outbound
  compute_outbound-WithinCap parent doc = kept-WithinCap parent doc.outbound_links
