-- ===== src/Security/Devices.antt =====
-- What the device scope guarantees, and what it does not.
use Prim.Native.String.{◌++◌}
use text.Mathlib.Text.{starts_with}
use text.Mathlib.TextPositions.{starts_with-append}
use text.Mathlib.TextLemmas.{append_assoc}
use rescs.Prelude.{String, string_eq, ◌≡◌, refl, true, some, arith}
use rescs.Errors.{ok}
use rescs.Security.{
  validate_device_namespace, validate_device_owner, device_scope, device_namespace_prefix,
}

-- Every namespace that is accepted lies in the scope of the device, dot included.
pub validate_device_namespace_scoped :
    (namespace device accepted : String)
    → validate_device_namespace namespace device ≡ ok accepted
    → starts_with accepted (device_scope device ++ ".") ≡ true
unfolding validate_device_namespace
validate_device_namespace_scoped namespace device accepted h =
    ground (arith, starts_with-append (device_scope device ++ ".") namespace)

-- An owner that spells the scope of another device is accepted for a device whose id begins that
-- device's: the test for the prefix of an owner has no dot at its end.
pub validate_device_owner_confused :
    (device rest : String)
    → let other = device ++ rest in
      (validate_device_owner (some (device_scope other)) device ≡ ok (some (device_scope other)))
unfolding validate_device_owner
validate_device_owner_confused device rest =
    let own = rw append_assoc at (starts_with-append (device_scope device) rest) in
    rw (starts_with-append device_namespace_prefix (device ++ rest), own) refl
