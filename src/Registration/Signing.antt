-- ===== src/Registration/Signing.antt =====
-- A signature that can be read back, for the tests: the time and the claims one after the other,
-- in unary.
use Prim.Native.Char.{code}
use kigali_pack.Base.{
  ℕ, zero, suc, ◌≡◌, refl, ap, ◌∙◌, Option, none, some, String, ◌==◌, if◌then◌else◌,
}
use kigali_pack.Data.{OrganizationRole, JwtPayload}

abbrev number : ℕ → String → String
number zero s = String.◌∷◌ "b" s
number (suc n) s = String.◌∷◌ "a" (number n s)

abbrev more : Option (ℕ × String) → Option (ℕ × String)
more none = none
more (some (n, s)) = some (suc n, s)

abbrev read_number : String → Option (ℕ × String)
read_number String.[] = none
read_number (String.◌∷◌ c s) =
    let rest = read_number s in if code c == b'b' then some (0, s) else more rest

read_number-number : (n : ℕ) (s : String) → read_number (number n s) ≡ some (n, s)
read_number-number zero s = refl
read_number-number (suc n) s = ap more (read_number-number n s)

abbrev of_role : OrganizationRole → ℕ
of_role OrganizationRole.master_admin = 0
of_role OrganizationRole.owner = 1
of_role OrganizationRole.admin = 2
of_role OrganizationRole.developer = 3
of_role OrganizationRole.viewer = 4
of_role OrganizationRole.org_owner = 5
of_role OrganizationRole.org_member = 6

abbrev to_role : ℕ → OrganizationRole
to_role zero = OrganizationRole.master_admin
to_role (suc zero) = OrganizationRole.owner
to_role (suc (suc zero)) = OrganizationRole.admin
to_role (suc (suc (suc zero))) = OrganizationRole.developer
to_role (suc (suc (suc (suc zero)))) = OrganizationRole.viewer
to_role (suc (suc (suc (suc (suc zero))))) = OrganizationRole.org_owner
to_role (suc (suc (suc (suc (suc (suc n)))))) = OrganizationRole.org_member

to_role-of_role : (r : OrganizationRole) → to_role (of_role r) ≡ r
to_role-of_role OrganizationRole.master_admin = refl
to_role-of_role OrganizationRole.owner = refl
to_role-of_role OrganizationRole.admin = refl
to_role-of_role OrganizationRole.developer = refl
to_role-of_role OrganizationRole.viewer = refl
to_role-of_role OrganizationRole.org_owner = refl
to_role-of_role OrganizationRole.org_member = refl

abbrev pub sign_payload : ℕ → JwtPayload → String
sign_payload now p = number now (number p.sub (number p.org_id (number (of_role p.role) p.email)))

abbrev then_email : ℕ → ℕ → Option (ℕ × String) → Option JwtPayload
then_email sub org_id none = none
then_email sub org_id (some (role, email)) =
    some (record { sub = sub; org_id = org_id; role = to_role role; email = email })

abbrev then_role : ℕ → Option (ℕ × String) → Option JwtPayload
then_role sub none = none
then_role sub (some (org_id, s)) = then_email sub org_id (read_number s)

abbrev then_org_id : Option (ℕ × String) → Option JwtPayload
then_org_id none = none
then_org_id (some (sub, s)) = then_role sub (read_number s)

abbrev then_claims : Option (ℕ × String) → Option JwtPayload
then_claims none = none
then_claims (some (now, s)) = then_org_id (read_number s)

abbrev pub verify_payload : String → Option JwtPayload
verify_payload s = then_claims (read_number s)

pub verify_payload-sign_payload :
    (now : ℕ) (p : JwtPayload) → verify_payload (sign_payload now p) ≡ some p
verify_payload-sign_payload now p =
    ap then_claims
      (read_number-number now (number p.sub (number p.org_id (number (of_role p.role) p.email))))
    ∙ ap then_org_id (read_number-number p.sub (number p.org_id (number (of_role p.role) p.email)))
    ∙ ap (then_role p.sub) (read_number-number p.org_id (number (of_role p.role) p.email))
    ∙ ap (then_email p.sub p.org_id) (read_number-number (of_role p.role) p.email)
    ∙ ap (λ r. some (record p { role = r })) (to_role-of_role p.role)
