-- ===== src/Idempotency/Fingerprint.antt =====
-- src/modules/idempotency/fingerprint.ts: objects with their members in the order of the keys.
-- The member names of an object are distinct, as in every JavaScript object, and none is an index
-- such as "0", which an object would list before the others. A member named "__proto__", which
-- `JSON.parse` makes like any other, gets lost: the assignment to it sets the prototype of the new
-- object if its value is an object, an array or null, and does nothing otherwise.
use timeoff_request.Base.{String, ◌==◌, if◌then◌else◌}
use timeoff_request.Base.Order.{not_after}
use timeoff_request.Json.{
  Json, null, bool, num, str, arr, obj, Items, nil, cons, Fields, end, field,
}

-- a member put in its place among sorted members
unfoldable pub insert_field : String → Json → Fields → Fields
insert_field k v end = field k v end
insert_field k v (field j w fs) =
    if not_after k j then field k v (field j w fs) else field j w (insert_field k v fs)

unfoldable mutual
  pub canonicalize : Json → Json
  canonicalize null = null
  canonicalize (bool b) = bool b
  canonicalize (num n) = num n
  canonicalize (str s) = str s
  canonicalize (arr xs) = arr (canonicalize_items xs)
  canonicalize (obj fs) = obj (canonicalize_fields fs)

  pub canonicalize_items : Items → Items
  canonicalize_items nil = nil
  canonicalize_items (cons x xs) = cons (canonicalize x) (canonicalize_items xs)

  -- the loop over the sorted keys; `out['__proto__'] = v` makes no member
  pub canonicalize_fields : Fields → Fields
  canonicalize_fields end = end
  canonicalize_fields (field k v fs) =
      let rest = canonicalize_fields fs in
      let value = canonicalize v in if k == "__proto__" then rest else insert_field k value rest

-- `JSON.stringify(canonicalize(payload))`
unfoldable pub canonical_fingerprint : Json → Json
canonical_fingerprint payload = canonicalize payload
