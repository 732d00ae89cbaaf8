-- ===== src/Fakes/Outbox.antt =====
-- crates/crawlrs-fakes/src/outbox.rs: the in-memory outbox of links that wait to be submitted.
use crawlrs.Prelude.{
  ℕ, zero, suc, ◌+◌, ◌%◌, ◌^◌, Bool, true, false, not, ◌||◌, List, [], ◌∷◌, ◌++◌, if◌then◌else◌,
  contains, eqb, nat_eq, list_eq,
}
use crawlrs.Core.Error.{Text}
use crawlrs.Core.Types.{UrlApi, UrlEntry}

-- The parent's URL, its attempt and the child's URL.
abbrev pub DedupeKey : Type 0
DedupeKey = List Text

pub record OutboxRow (Url : Type 0) : Type 0 where
  pub id : ℕ
  pub entry : UrlEntry Url
  pub published : Bool

pub record OutboxEntry (Url : Type 0) : Type 0 where
  pub id : ℕ
  pub entry : UrlEntry Url

pub record OutboxState (Url : Type 0) : Type 0 where
  pub rows : List (OutboxRow Url)
  pub next_id : ℕ
  pub dedupe : List DedupeKey
  pub leased : List ℕ

-- HashSet::insert and HashSet::remove on the leased ids.
unfoldable pub set_insert : ℕ → List ℕ → List ℕ
set_insert id ids = if contains ids id then ids else id ∷ ids

unfoldable pub set_remove : ℕ → List ℕ → List ℕ
set_remove id [] = []
set_remove id (i ∷ ids) = let rest = set_remove id ids in if eqb i id then rest else i ∷ rest

unfoldable pub insert_all : List ℕ → List ℕ → List ℕ
unfolding set_insert
insert_all [] leased = leased
insert_all (id ∷ ids) leased = insert_all ids (set_insert id leased)

unfoldable pub remove_all : List ℕ → List ℕ → List ℕ
unfolding set_remove
remove_all [] leased = leased
remove_all (id ∷ ids) leased = remove_all ids (set_remove id leased)

module _ {Url : Type 0} where
  abbrev pub empty_outbox : OutboxState Url
  empty_outbox = record { rows = []; next_id = 0; dedupe = []; leased = [] }

  unfoldable pub dedupe_key : UrlApi Url → Url → Text → UrlEntry Url → DedupeKey
  dedupe_key api parent_url attempt child =
      api.as_str parent_url ∷ attempt ∷ api.as_str child.url ∷ []

  unfoldable pub record_outbound :
      UrlApi Url → Url → Text → UrlEntry Url → OutboxState Url → OutboxState Url
  record_outbound api parent_url attempt child s =
      if contains s.dedupe (dedupe_key api parent_url attempt child) then s else record s {
        dedupe = dedupe_key api parent_url attempt child ∷ s.dedupe;
        next_id = (s.next_id + 1) % 2 ^ 64;
        rows =
            s.rows
            ++ record { id = (s.next_id + 1) % 2 ^ 64; entry = child; published = false } ∷ [];
      }

  -- A row that a publisher may take.
  unfoldable pub is_open : List ℕ → OutboxRow Url → Bool
  is_open leased row = not (row.published || contains leased row.id)

  -- The loop of `lease_batch`, with room for `max` more entries.
  unfoldable pub open_entries : List ℕ → ℕ → List (OutboxRow Url) → List (OutboxEntry Url)
  unfolding is_open
  open_entries leased zero rows = []
  open_entries leased (suc max) [] = []
  open_entries leased (suc max) (row ∷ rows) =
      let rest = open_entries leased max rows in
      let skip = open_entries leased (suc max) rows in
      if is_open leased row then record { id = row.id; entry = row.entry } ∷ rest else skip

  unfoldable pub ids_of : List (OutboxEntry Url) → List ℕ
  ids_of [] = []
  ids_of (e ∷ es) = e.id ∷ ids_of es

  unfoldable pub lease_batch : ℕ → OutboxState Url → List (OutboxEntry Url) × OutboxState Url
  unfolding open_entries ids_of insert_all
  lease_batch max s =
      let entries = open_entries s.leased max s.rows in
      (entries, record s { leased = insert_all (ids_of entries) s.leased })

  unfoldable pub publish_rows : List ℕ → List (OutboxRow Url) → List (OutboxRow Url)
  publish_rows ids [] = []
  publish_rows ids (row ∷ rows) =
      (if contains ids row.id then record row { published = true } else row) ∷ publish_rows ids rows

  unfoldable pub finalize_lease : List ℕ → OutboxState Url → OutboxState Url
  unfolding publish_rows remove_all
  finalize_lease ids s = record s {
    rows = publish_rows ids s.rows;
    leased = remove_all ids s.leased;
  }

  unfoldable pub release_lease : List ℕ → OutboxState Url → OutboxState Url
  unfolding remove_all
  release_lease ids s = record s { leased = remove_all ids s.leased }
