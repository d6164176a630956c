-- ===== src/Worker/Value.antt =====
-- processor.go: the values of connection parameters (`map[string]any`), and `policyFromConnection`.
use n.Base.{
  ◌≡◌, refl, arith, List, [], ◌∷◌, ℕ, Option, none, some, Bytes, codes, eq, is_empty, if◌then◌else◌,
}
use n.Job.Backend.{Error, message, Result, ok, err}
use n.Sandbox.Token.{Policy}

-- `other` is a null, a boolean or a number, which the code does not look at; the tag tells them
-- apart.
mutual
  pub data Value : Type 0 where
    text : Bytes → Value
    list : Values → Value
    object : Fields → Value
    other : ℕ → Value

  pub data Values : Type 0 where
    nil : Values
    cons : Value → Values → Values

  pub data Fields : Type 0 where
    end : Fields
    field : Bytes → Value → Fields → Fields

-- `params[key]`.
unfoldable pub get_field : Bytes → Fields → Option Value
get_field key end = none
get_field key (field name value rest) =
    let later = get_field key rest in if eq name key then some value else later

-- `delete(params, key)`.
unfoldable pub delete_field : Bytes → Fields → Fields
delete_field key end = end
delete_field key (field name value rest) =
    let later = delete_field key rest in if eq name key then later else field name value later

abbrev bad_table : Error
bad_table = message (codes "allowed_tables must contain strings")

abbrev cons_table : Bytes → Result (List Bytes) → Result (List Bytes)
cons_table name (ok names) = if is_empty name then err bad_table else ok (name ∷ names)
cons_table name (err e) = err bad_table

-- The loop over `allowed_tables`; every failure of it is the same error.
table_names : Values → Result (List Bytes)
table_names nil = ok []
table_names (cons (text name) rest) = cons_table name (table_names rest)
table_names (cons value rest) = err bad_table

abbrev allowed_tables : Option Value → Result (List Bytes)
allowed_tables (some (list (cons value rest))) = table_names (cons value rest)
allowed_tables found = err (message (codes "allowed_tables is required"))

abbrev text_of : Option Value → Bytes
text_of (some (text s)) = s
text_of found = []

abbrev with_tables : Bytes → Bytes → Result (List Bytes) → Result Policy
with_tables column tenant (err e) = err e
with_tables column tenant (ok names) =
    ok (record { allowed_tables = names; tenant_column = column; tenant_value = tenant })

abbrev policy_in : Bytes → Option Value → Result Policy
policy_in tenant (some (object raw)) =
    with_tables (text_of (get_field (codes "tenant_column") raw)) tenant
      (allowed_tables (get_field (codes "allowed_tables") raw))
policy_in tenant found = err (message (codes "query_policy is required"))

-- `policyFromConnection`.
unfoldable pub policy_from_connection : Fields → Bytes → Result Policy
unfolding table_names get_field
policy_from_connection params tenant = policy_in tenant (get_field (codes "query_policy") params)

with_tables-tenant :
    (column tenant : Bytes) (names : Result (List Bytes)) (p : Policy)
    → with_tables column tenant names ≡ ok p
    → p.tenant_value ≡ tenant
with_tables-tenant column tenant (ok names) p h = ground arith
with_tables-tenant column tenant (err e) p h = cc

policy_in-tenant :
    (tenant : Bytes) (found : Option Value) (p : Policy)
    → policy_in tenant found ≡ ok p
    → p.tenant_value ≡ tenant
policy_in-tenant tenant (some (object raw)) p h = with_tables-tenant _ tenant _ p h
policy_in-tenant tenant (some (text s)) p h = cc
policy_in-tenant tenant (some (list l)) p h = cc
policy_in-tenant tenant (some (other k)) p h = cc
policy_in-tenant tenant none p h = cc

-- The policy of a job binds the tenant of the job, whatever the connection's parameters say.
pub policy_from_connection-tenant :
    (params : Fields) (tenant : Bytes) (p : Policy)
    → policy_from_connection params tenant ≡ ok p
    → p.tenant_value ≡ tenant
unfolding policy_from_connection
policy_from_connection-tenant params tenant p h =
    policy_in-tenant tenant (get_field (codes "query_policy") params) p h

-- `delete` leaves no field of that name.
pub get_field-delete_field :
    (key : Bytes) (fs : Fields) → get_field key (delete_field key fs) ≡ none
unfolding get_field delete_field
get_field-delete_field key end = refl
get_field-delete_field key (field name value rest) = ground (arith, get_field-delete_field key rest)
