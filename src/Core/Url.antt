-- ===== src/Core/Url.antt =====
-- crates/crawlrs-core/src/url.rs: `CanonicalUrl` over the `url` crate's type.
use crawlrs.Prelude.{Bool, [], ◌∷◌, ◌||◌, list_eq, nat_eq, ◌==◌}
use crawlrs.Core.Error.{Text}
use crawlrs.Core.Types.{UrlApi}

abbrev http : Text
http = b'h' ∷ b't' ∷ b't' ∷ b'p' ∷ []

abbrev https : Text
https = b'h' ∷ b't' ∷ b't' ∷ b'p' ∷ b's' ∷ []

unfoldable pub is_http : {Url : Type 0} → UrlApi Url → Url → Bool
is_http api url = api.scheme url == http || api.scheme url == https
