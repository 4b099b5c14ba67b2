-- ===== src/Tests/Tokens.antt =====
-- Enrollment with a token, at a registry with one invitation.
use epochgrid.Base.{
  ℕ, [], ◌∷◌, Text, text, Bytes, none, some, ok, err, String, ◌≡◌, ◌≢◌, refl, ap, arith, ◌⊎◌,
  ℕ_discrete, bytes_discrete,
}
use epochgrid.Wire.{PolicyUpdate, SignedPolicy, Member, validate_id}
use epochgrid.Wire
use epochgrid.Identity.{verify_signature, signing_bytes}
use epochgrid.Capacity.{default, check_database}
use epochgrid.Audit.Events.{committed, reference_of}
use epochgrid.Audit.Log.{info, payload_of, append_operation, append}
use epochgrid.Registry.Tables.{Registry, check_registry, maximum, within}
use epochgrid.Registry.Admission.{user_id_of}
use epochgrid.Registry.Enroll.{
  split, token_user, authenticate, resolve, used_by, count_if, insert_device, enroll_action,
  enroll_checks, provider_checks, first_enrollment, enroll_token, enroll,
}
use epochgrid.Registry.Enroll.Once.{Enrolled, enroll_lem, enroll_once}
use epochgrid.Identity.{verify, device_name}
use epochgrid.Merkle.{hash}
use epochgrid.Tests.Fixture.{fixture, anna_laptop, anna_phone, pad}
use epochgrid.Tests.Groups.{sql, around, registry}

abbrev last_of : Text → ℕ
last_of [] = 0
last_of (c ∷ []) = c
last_of (c ∷ d ∷ rest) = d

abbrev token : Text
token = text "EG1.egusr-aaaaaaaaaaaaaaaa.ABCDEFGHIJKLMNOPQRSTUVWXYZABCDEFGHIJKLMNOPQRSTUVWXYZ"

abbrev invited : Registry
invited = record registry {
  bindings =
      record {
        provider = text "local";
        subject = text "anna";
        user_id = text "egusr-aaaaaaaaaaaaaaaa";
      }
      ∷ [];
  tokens =
      record {
        digest = pad token;
        user_id = text "egusr-aaaaaaaaaaaaaaaa";
        expires = 100;
        used_key = none;
      }
      ∷ [];
  devices = [];
}

abbrev spent : Registry
spent = record invited {
  tokens =
      record {
        digest = pad token;
        user_id = text "egusr-aaaaaaaaaaaaaaaa";
        expires = 100;
        used_key = some (text "UA");
      }
      ∷ [];
}

enrolled : (enroll fixture sql default around 7 token anna_laptop invited).0 ≡ ok tt
unfolding enroll enroll_checks verify verify_signature validate_id signing_bytes device_name
    token_user split user_id_of hash Wire.encode enroll_token used_by first_enrollment
    provider_checks authenticate resolve enroll_action count_if insert_device reference_of append
    append_operation info payload_of committed check_registry maximum within check_database default
    ℕ_discrete bytes_discrete
enrolled = refl

enroll_lem_example :
    ((e : String) × (enroll fixture sql default around 7 token anna_laptop invited
        ≡ (err e, invited)))
    ⊎ (record {
      db' : Registry;
      digest : Bytes;
      result : enroll fixture sql default around 7 token anna_laptop invited ≡ (ok tt, db');
      authentic :
          (verify fixture anna_laptop ≡ ok tt)
          × (token_user fixture token ≡ ok (text "egusr-aaaaaaaaaaaaaaaa"))
          × (hash fixture token ≡ ok digest);
      enrolled : Enrolled fixture sql default digest anna_laptop invited db';
    })
enroll_lem_example = enroll_lem fixture sql default around 7 token anna_laptop invited

token_hashed : hash fixture token ≡ ok (pad token)
unfolding hash ℕ_discrete
token_hashed = refl

spent_on_laptop : used_by (pad token) spent.tokens ≡ some (text "UA")
unfolding used_by ℕ_discrete bytes_discrete
spent_on_laptop = refl

keys_differ : text "UP" ≢ text "UA"
keys_differ = λ q. absurd (omega (arith, ap last_of q))

enroll_once_example :
    (e : String) × (enroll fixture sql default around 9 token anna_phone spent ≡ (err e, spent))
enroll_once_example =
    enroll_once fixture sql default around 9 token (pad token) (text "UA") anna_phone spent
      token_hashed spent_on_laptop keys_differ
