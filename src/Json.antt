-- ===== src/Json.antt =====
-- `serde_json::Value` and `Number`: an object is its entries in key order.
use arazzo_cli.Base.{ℕ, String, Bool}

-- Every integer outside a `u64` is negative: `neg_int n` is -(n + 1). A float is its bit pattern.
pub data Number : Type 0 where
  pos_int neg_int float : ℕ → Number

mutual
  pub data Json : Type 0 where
    null : Json
    boolean : Bool → Json
    number : Number → Json
    string : String → Json
    array : Items → Json
    object : Fields → Json

  pub data Items : Type 0 where
    nil : Items
    cons : Json → Items → Items

  pub data Fields : Type 0 where
    none_left : Fields
    field : String → Json → Fields → Fields
