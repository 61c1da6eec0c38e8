-- ===== src/Models.antt =====
-- src/models/mod.rs. `F` stands for `f64`: the language has no floating point, and no code here
-- computes with an amount once it is made.
use chain_data_service.Base.{String, Bool, Option, ℤ}

pub record Transaction (F : Type 0) : Type 0 where
  pub signature : String
  pub block_time : ℤ
  pub slot : ℤ
  pub source_address : String
  pub destination_address : Option String
  pub amount : Option F
  pub program_id : Option String
  pub success : Bool

unfoldable pub new :
    {F : Type 0}
    → String
    → ℤ
    → ℤ
    → String
    → Option String
    → Option F
    → Option String
    → Bool
    → Transaction F
new signature block_time slot source_address destination_address amount program_id success =
    record {
      signature = signature;
      block_time = block_time;
      slot = slot;
      source_address = source_address;
      destination_address = destination_address;
      amount = amount;
      program_id = program_id;
      success = success;
    }
