-- ===== src/Execution/Idempotency.antt =====
-- pkg/execution/idempotency.go. The hash and its hexadecimal digits, sha256 and encoding/hex, are a
-- parameter.
pub mod RoundTrip
use polymarket_go_sdk.Base.{
  ℕ, Bool, true, false, ◌||◌, ◌==◌, ◌++◌, List, [], ◌∷◌, Option, none, some, is_empty,
  if◌then◌else◌, leb, ltb, length,
}
use polymarket_go_sdk.Base.Text.{Text, codes, text_eq, to_lower, trim_space}
use polymarket_go_sdk.Base.Text.Split.{split, cut}
use polymarket_go_sdk.Base.Result.{Result, ok, err}

-- IdempotencyKeyInput and IdempotencyParts, which have the same fields.
pub record Parts : Type 0 where
  pub tenant : Text
  pub strategy : Text
  pub client_order_id : Text

pub record IdempotencyKey : Type 0 where
  pub version : Text
  pub canonical : Text
  pub digest : Text
  pub value : Text

pub data KeyError : Type 0 where
  tenant_required strategy_required client_order_id_required part_too_long canonical_invalid :
      KeyError

abbrev max_part_length : ℕ
max_part_length = 128

unfoldable pub normalize_scope_part : Text → Text
normalize_scope_part v = to_lower (trim_space v)

-- The parts as they stand in the key.
unfoldable pub normalized : Parts → Parts
unfolding normalize_scope_part
normalized p = record {
  tenant = normalize_scope_part p.tenant;
  strategy = normalize_scope_part p.strategy;
  client_order_id = trim_space p.client_order_id;
}

unfoldable pub canonical_of : Parts → Text
canonical_of p =
    (codes "tenant=" ++ p.tenant)
    ++ (codes ";"
        ++ ((codes "strategy=" ++ p.strategy)
            ++ (codes ";" ++ (codes "client_order_id=" ++ p.client_order_id))))

unfoldable pub check_parts : Parts → Option KeyError
check_parts p =
    if is_empty p.tenant
    then some tenant_required
    else if is_empty p.strategy
    then some strategy_required
    else if is_empty p.client_order_id
    then some client_order_id_required
    else if ltb max_part_length (length p.tenant)
        || ltb max_part_length (length p.strategy)
        || ltb max_part_length (length p.client_order_id)
    then some part_too_long
    else none

unfoldable pub key_of : (Text → Text) → Text → IdempotencyKey
key_of hash canonical = record {
  version = codes "v1";
  canonical = canonical;
  digest = hash canonical;
  value = codes "idem:" ++ (codes "v1" ++ (codes ":" ++ hash canonical));
}

unfoldable pub checked : IdempotencyKey → Option KeyError → Result KeyError IdempotencyKey
checked key none = ok key
checked key (some e) = err e

unfoldable pub build_idempotency_key : (Text → Text) → Parts → Result KeyError IdempotencyKey
unfolding checked
build_idempotency_key hash input =
    checked (key_of hash (canonical_of (normalized input))) (check_parts (normalized input))

-- An entry of the map, the last that was set for its key.
unfoldable pub lookup : List (Text × Text) → Text → Text
lookup [] k = []
lookup ((name, value) ∷ rest) k =
    let later = lookup rest k in
    if is_empty later then (if text_eq name k then value else []) else later

unfoldable pub entry : Option (Text × Text) → Option (Text × Text)
entry none = none
entry (some (k, v)) =
    if is_empty (trim_space k) || is_empty (trim_space v)
    then none
    else some (trim_space k, trim_space v)

-- `strings.SplitN(strings.TrimSpace(part), "=", 2)` and the guards after it; 61 is "=".
unfoldable pub parse_part : Text → Option (Text × Text)
unfolding entry
parse_part part = entry (cut 61 (trim_space part))

-- The loop over the parts: the entries, or none where it returns an error.
unfoldable pub parse_parts : List Text → Option (List (Text × Text))
unfolding parse_part
parse_parts [] = some []
parse_parts (part ∷ rest) =
    let more = parse_parts rest in
    elim (parse_part part) [
      | none ↦ none
      | some e ↦ elim more [ none ↦ none | some es ↦ some (e ∷ es) ]
    ]

unfoldable pub required : Parts → Result KeyError Parts
required p =
    if is_empty p.tenant || is_empty p.strategy || is_empty p.client_order_id
    then err canonical_invalid
    else ok p

unfoldable pub collect : Option (List (Text × Text)) → Result KeyError Parts
unfolding required
collect none = err canonical_invalid
collect (some es) = required (record {
  tenant = lookup es (codes "tenant");
  strategy = lookup es (codes "strategy");
  client_order_id = lookup es (codes "client_order_id");
})

-- 59 is ";".
unfoldable pub parse_idempotency_canonical : Text → Result KeyError Parts
unfolding collect parse_parts
parse_idempotency_canonical canonical =
    let s = trim_space canonical in
    let parts = split 59 s in
    if is_empty s
    then err canonical_invalid
    else if length parts == 3
    then collect (parse_parts parts)
    else err canonical_invalid
