-- ===== src/Contracts/Customers.antt =====
-- contracts/customers.py: customers, and the identities by which channels know them.
use penny_core.Prelude.{
  String, Bool, true, false, Option, none, some, if◌then◌else◌, Eq, ◌≡◌, ◌↔◌, arith,
}
use penny_core.Contracts.{Timestamp}
use penny_core.Contracts.Json.{Payload}
use penny_core.Contracts.Texts.{Texts, is_blank, strip}

pub data IdentityKind : Type 0 where
  email phone external_id chat_handle : IdentityKind

unfoldable pub kind_beq : IdentityKind → IdentityKind → Bool
kind_beq email email = true
kind_beq phone phone = true
kind_beq external_id external_id = true
kind_beq chat_handle chat_handle = true
kind_beq _ _ = false

pub kind_beq_iff : (a b : IdentityKind) → (kind_beq a b ≡ true) ↔ (a ≡ b)
unfolding kind_beq
kind_beq_iff a b = ground arith

instance abbrev pub kind_eq : Eq IdentityKind
kind_eq = record { same = kind_beq; same_iff = kind_beq_iff }

pub record Customer : Type 0 where
  pub id : String
  pub tenant_id : String
  pub display_name : Option String
  pub created_at : Timestamp
  pub updated_at : Timestamp
  pub metadata : Payload

pub record CustomerIdentity : Type 0 where
  pub id : String
  pub tenant_id : String
  pub customer_id : String
  pub identity_kind : IdentityKind
  pub identity_value : String
  pub created_at : Timestamp

-- `kind in (IdentityKind.EMAIL, IdentityKind.CHAT_HANDLE)`
unfoldable pub ignores_case : IdentityKind → Bool
ignores_case email = true
ignores_case chat_handle = true
ignores_case phone = false
ignores_case external_id = false

-- The validator of `identity_value`; a value that is blank is refused.
unfoldable pub validated_value : Texts → IdentityKind → String → Option String
unfolding ignores_case
validated_value tx kind value =
    let v = strip tx value in
    if is_blank v then none else some (if ignores_case kind then tx.lower v else v)
