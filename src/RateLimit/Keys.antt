-- ===== src/RateLimit/Keys.antt =====
-- internal/ratelimit/store.go: the keys of the buckets, and their text in memory_backend.go.
pub mod Labels
use cruvero_mcp_gateway.Prelude.{
  ◌≡◌, refl, ◌↔◌, Bool, true, ◌&&◌, List, [], ◌∷◌, ◌++◌, Option, none, some, Eq, ◌==◌,
  if◌then◌else◌, is_empty, arith, eq_iff,
}
use cruvero_mcp_gateway.Prelude.Texts.{Text, text_eq, codes, trim_space, cut}

pub record LimiterKey : Type 0 where
  pub client_id : Text
  pub route : Text

-- Go's == on the struct.
unfoldable pub key_beq : LimiterKey → LimiterKey → Bool
key_beq a b = a.client_id == b.client_id && a.route == b.route

pub key_beq_iff : (a b : LimiterKey) → (key_beq a b ≡ true) ↔ (a ≡ b)
unfolding key_beq
key_beq_iff a b = ground (arith, eq_iff a.client_id b.client_id, eq_iff a.route b.route)

instance abbrev pub key_eq : Eq LimiterKey
key_eq = record { beq = key_beq; beq_iff = key_beq_iff }

-- `LimiterKey.String`
unfoldable pub key_string : LimiterKey → Text
key_string k = k.client_id ++ (b':' ∷ k.route)

unfoldable pub or_else : Text → Text → Text
or_else s fallback = if is_empty s then fallback else s

unfoldable pub normalize_key : LimiterKey → LimiterKey
unfolding or_else trim_space
normalize_key k = record {
  client_id = or_else (trim_space k.client_id) (codes "anonymous");
  route = or_else (trim_space k.route) (codes "unknown");
}

-- How `Snapshot` reads a key of the map: the client before the first colon, the route after it.
unfoldable pub label : Text → LimiterKey
unfolding cut
label key = elim (cut (b':' ∷ []) key) [
  | some (client, route) ↦ record { client_id = client; route = route }
  | none ↦ record { client_id = key; route = [] }
]
