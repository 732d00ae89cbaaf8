-- ===== src/Core/Scope.antt =====
-- crates/crawlrs-core/src/crawl_scope.rs and blocklist.rs.
use crawlrs.Prelude.{ℕ, Bool, List, Option, none, some, contains, list_eq, nat_eq}
use crawlrs.Prelude.Map
use crawlrs.Prelude.Map.{Map}
use crawlrs.Core.Error.{Text}

pub record CrawlOverride : Type 0 where
  pub max_depth : Option ℕ
  pub max_urls : Option ℕ

pub record CrawlScope : Type 0 where
  pub max_depth : Option ℕ
  pub max_urls : Option ℕ
  pub per_domain : Map Text CrawlOverride

abbrev or_default {ℓ} : {A : Type ℓ} → Option A → Option A → Option A
or_default none d = d
or_default (some a) d = some a

unfoldable pub depth_cap : CrawlScope → Text → Option ℕ
depth_cap s host = elim (Map.get host s.per_domain) [
  | none ↦ s.max_depth
  | some o ↦ or_default o.max_depth s.max_depth
]

unfoldable pub max_urls_for : CrawlScope → Text → Option ℕ
max_urls_for s host = elim (Map.get host s.per_domain) [
  | none ↦ s.max_urls
  | some o ↦ or_default o.max_urls s.max_urls
]

pub record Blocklist : Type 0 where
  pub hosts : List Text

unfoldable pub is_blocked : Blocklist → Text → Bool
is_blocked b host = contains b.hosts host
