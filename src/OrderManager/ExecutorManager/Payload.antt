-- ===== src/OrderManager/ExecutorManager/Payload.antt =====
-- The JSON object that orders an order, read member by member.
use velocity_vortex.Base.{
  ◌≡◌, refl, ◌∙◌, true, false, if◌then◌else◌, Option, none, some, List, [], ◌∷◌, ◌++◌, Text, codes,
  eq_text,
}
use velocity_vortex.Alpaca.OrderManager.{optional_member, order_payload}
use velocity_vortex.OrderManager.Details.{OrderDetails}
use velocity_vortex.OrderManager.ExecutorManager.{details_payload}

-- The value of the first member with this key.
unfoldable pub lookup : Text → List (Text × Text) → Option Text
lookup key [] = none
lookup key ((k, x) ∷ members) =
    let later = lookup key members in if eq_text key k then some x else later

abbrev pub text_or_empty : Option Text → Text
text_or_empty none = []
text_or_empty (some x) = x

-- The service's reading of the object: five members that are given, and four that need not be.
unfoldable pub read_details : List (Text × Text) → OrderDetails
unfolding lookup
read_details members = record {
  side = text_or_empty (lookup (codes "side") members);
  type = text_or_empty (lookup (codes "type") members);
  time_in_force = text_or_empty (lookup (codes "time_in_force") members);
  symbol = text_or_empty (lookup (codes "symbol") members);
  qty = text_or_empty (lookup (codes "qty") members);
  limit_price = lookup (codes "limit_price") members;
  stop_price = lookup (codes "stop_price") members;
  trail_price = lookup (codes "trail_price") members;
  trail_percent = lookup (codes "trail_percent") members;
}

lookup_other :
    (key k : Text) (x : Option Text) (members : List (Text × Text))
    → eq_text key k ≡ false
    → lookup key (optional_member k x ++ members) ≡ lookup key members
unfolding lookup
lookup_other key k none members e = refl
lookup_other key k (some x) members e = rw e refl

lookup_own :
    (key : Text) (x : Option Text) (members : List (Text × Text))
    → eq_text key key ≡ true
    → lookup key members ≡ none
    → lookup key (optional_member key x ++ members) ≡ x
unfolding lookup
lookup_own key none members e absent = absent
lookup_own key (some x) members e absent = rw e refl

last_other :
    (key k : Text) (x : Option Text)
    → eq_text key k ≡ false
    → lookup key (optional_member k x) ≡ none
unfolding lookup
last_other key k none e = refl
last_other key k (some x) e = rw e refl

last_own :
    (key : Text) (x : Option Text) → eq_text key key ≡ true → lookup key (optional_member key x) ≡ x
unfolding lookup
last_own key none e = refl
last_own key (some x) e = rw e refl

-- The object that is posted for an order is read as just the order's details: no member is lost, mixed up
-- with another or made up.
pub read_details-details_payload : (d : OrderDetails) → read_details (details_payload d) ≡ d
unfolding read_details details_payload order_payload lookup codes eq_text
read_details-details_payload d =
    let limit = codes "limit_price" in
    let stop = codes "stop_price" in
    let trail = codes "trail_price" in
    let percent = codes "trail_percent" in
    let from_percent = optional_member percent d.trail_percent in
    let from_trail = optional_member trail d.trail_price ++ from_percent in
    let from_stop = optional_member stop d.stop_price ++ from_trail in
    let limit_read : lookup limit (optional_member limit d.limit_price ++ from_stop)
        ≡ d.limit_price =
      lookup_own limit d.limit_price from_stop refl (
        lookup_other limit stop d.stop_price from_trail refl
        ∙ lookup_other limit trail d.trail_price from_percent refl
        ∙ last_other limit percent d.trail_percent refl) in
    let stop_read : lookup stop (optional_member limit d.limit_price ++ from_stop) ≡ d.stop_price =
      lookup_other stop limit d.limit_price from_stop refl
      ∙ lookup_own stop d.stop_price from_trail refl (
          lookup_other stop trail d.trail_price from_percent refl
          ∙ last_other stop percent d.trail_percent refl) in
    let trail_read : lookup trail (optional_member limit d.limit_price ++ from_stop)
        ≡ d.trail_price =
      lookup_other trail limit d.limit_price from_stop refl
      ∙ lookup_other trail stop d.stop_price from_trail refl
      ∙ lookup_own trail d.trail_price from_percent refl
          (last_other trail percent d.trail_percent refl) in
    let percent_read : lookup percent (optional_member limit d.limit_price ++ from_stop)
        ≡ d.trail_percent =
      lookup_other percent limit d.limit_price from_stop refl
      ∙ lookup_other percent stop d.stop_price from_trail refl
      ∙ lookup_other percent trail d.trail_price from_percent refl
      ∙ last_own percent d.trail_percent refl in
    λ i. record d {
      limit_price = limit_read i;
      stop_price = stop_read i;
      trail_price = trail_read i;
      trail_percent = percent_read i;
    }
