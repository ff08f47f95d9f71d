-- ===== src/Connection/Validation.antt =====
-- What `validateServerData` lets pass.
use centos_info_collect.Base.{
  ◌≤◌, ◌≡◌, refl, subst, ◌||◌, ◌≢◌, ◌↔◌, ◌⊎◌, Bool, true, false, Option, none, some, [], ◌∷◌, Text,
  codes, trim, arith, get, list_eq, ℕ_eq,
}
use centos_info_collect.Base.Int.{ℤ, pos, negsuc, ltb_ℤ}
use centos_info_collect.Base.Number.{parse_int}
use centos_info_collect.Form.Rules.{is_ip_address}
use centos_info_collect.Form.Rules.IpAddress.{IsDottedQuad, is_ip_address_iff}
use centos_info_collect.Connection.{
  ServerData, validate_server_data, request_form, port_or_default, is_blank,
}

-- The number of the port is absent, zero or in the range.
unfoldable pub IsPort : Option ℤ → Type 0
IsPort none = Unit
IsPort (some (negsuc n)) = ⊥
IsPort (some (pos n)) = n ≤ 65535

abbrev pub IsReachable : ServerData → Type 0
IsReachable d =
    IsDottedQuad (trim d.linux_ip)
    × (trim d.linux_user ≢ [])
    × (trim d.linux_passwd ≢ [])
    × IsPort (parse_int d.linux_port)

trim-nil : trim [] ≡ []
unfolding trim
trim-nil = refl

abbrev refuses_port : ℤ → Bool
refuses_port port = ltb_ℤ port (pos 1) || ltb_ℤ (pos 65535) port

IsPort-iff : (n : Option ℤ) → (refuses_port (port_or_default n) ≡ false) ↔ IsPort n
unfolding IsPort
IsPort-iff none = ground arith
IsPort-iff (some (negsuc n)) = ground arith
IsPort-iff (some (pos n)) = ground arith

blank_iff : (s : Text) → (is_blank s ≡ false) ↔ (trim s ≢ [])
blank_iff [] = (λ h. cc, λ h. absurd (h trim-nil))
blank_iff (c ∷ s) = ground arith

not-IsDottedQuad-blank : (s : Text) → is_blank s ≡ true → IsDottedQuad (trim s) → ⊥
unfolding is_ip_address
not-IsDottedQuad-blank s b q =
    let empty : trim s ≡ [] = ground (arith, (blank_iff s).1) in
    let passes : is_ip_address [] ≡ true = (is_ip_address_iff []).1 (subst IsDottedQuad empty q) in
    cc passes

-- Data passes exactly if the trimmed address is a dotted quad, user and password are not blank,
-- and the port has no leading number, or one that is 0 or at most 65535.
pub validate_server_data_iff : (d : ServerData) → (validate_server_data d ≡ none) ↔ IsReachable d
unfolding validate_server_data
validate_server_data_iff d = ground (
  arith,
  blank_iff d.linux_user,
  blank_iff d.linux_passwd,
  is_ip_address_iff (trim d.linux_ip),
  IsPort-iff (parse_int d.linux_port),
  not-IsDottedQuad-blank d.linux_ip,
)

-- Data whose port is a text with no leading number, or with the number 0, passes like data with the
-- port 22, and the request carries that text itself.
pub request_form-port :
    (d : ServerData) (token : Option Text)
    → validate_server_data (record d { linux_port = codes "22" }) ≡ none
    → d.linux_port ≢ []
    → (parse_int d.linux_port ≡ none) ⊎ (parse_int d.linux_port ≡ some (pos 0))
    → (validate_server_data d ≡ none)
      × (get (codes "linux_port") (request_form d token) ≡ some d.linux_port)
unfolding validate_server_data request_form get
request_form-port d token v filled port = (ground arith, ground arith)
