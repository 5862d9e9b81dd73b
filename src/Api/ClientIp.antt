-- ===== src/Api/ClientIp.antt =====
-- The rate limiter's key: the address that the proxy in front appended.
use Prim.Native.String.append
use Prim.Native.String.compare
use text.Mathlib.Text.{is_eq}
use Prim.Native.Char.{Char, code}
use Prim.Native.String.{[], ◌∷◌, ◌++◌}
use shortn.Prelude.{
  String, false, ◌≡◌, ◌≢◌, refl, ◌∙◌, none, some, arith, Bool-cases, str_eq, eq_iff, inl, inr,
}
use shortn.Act.{Result}
use shortn.Api.{Request}
use shortn.Api.Middleware.{behind_comma, or_whole, last_part, client_ip}

abbrev pub IsCommaFree : String → Type 0
IsCommaFree [] = Unit
IsCommaFree (c ∷ s) = (code c ≢ b',') × IsCommaFree s

behind_comma-none : (s : String) → IsCommaFree s → behind_comma s ≡ none
unfolding behind_comma
behind_comma-none [] h = refl
behind_comma-none (c ∷ s) (other, h) = rw (behind_comma-none s h) (ground arith)

append_cons : (c : Char) (s t : String) → (c ∷ s) ++ t ≡ c ∷ (s ++ t)
append_cons c s t = λ i. append.cons c s t i

append_nil : (t : String) → "" ++ t ≡ t
append_nil t = λ i. append.nil t i

abbrev comma : Char
comma = ","

behind_comma-comma : (addr : String) → IsCommaFree addr → behind_comma (comma ∷ addr) ≡ some addr
unfolding behind_comma
behind_comma-comma addr h = rw (behind_comma-none addr h)

behind_comma-cons :
    (c : Char) (s addr : String) → behind_comma s ≡ some addr → behind_comma (c ∷ s) ≡ some addr
unfolding behind_comma
behind_comma-cons c s addr e = rw e

comma_then : (addr : String) → "," ++ addr ≡ comma ∷ addr
comma_then addr = append_cons comma "" addr ∙ rw (append_nil addr)

behind_comma-append :
    (forged addr : String) → IsCommaFree addr → behind_comma (forged ++ ("," ++ addr)) ≡ some addr
behind_comma-append [] addr h =
    rw (append_nil ("," ++ addr), comma_then addr) (behind_comma-comma addr h)
behind_comma-append (c ∷ s) addr h =
    rw (append_cons c s ("," ++ addr))
      (behind_comma-cons c (s ++ ("," ++ addr)) addr (behind_comma-append s addr h))

cons-not_empty : (c : Char) (s : String) → str_eq (c ∷ s) "" ≡ false
cons-not_empty c s = λ i. is_eq (compare.cons-nil c s i)

not_empty : (forged addr : String) → str_eq (forged ++ ("," ++ addr)) "" ≡ false
not_empty [] addr = rw (append_nil ("," ++ addr), comma_then addr) (cons-not_empty comma addr)
not_empty (c ∷ s) addr = rw (append_cons c s ("," ++ addr)) (cons-not_empty c (s ++ ("," ++ addr)))

-- Whatever the client put into X-Forwarded-For, with the proxy's address, which has no comma and
-- is not blank, appended behind a comma, the limiter's key is that address without the space
-- around it.
pub client_ip-append :
    (trim : String → String) (split_host_port : String → Result String) (r : Request)
    (forged addr : String)
    → IsCommaFree addr
    → trim addr ≢ ""
    → client_ip trim split_host_port (record r { forwarded_for = forged ++ ("," ++ addr) })
      ≡ trim addr
unfolding client_ip last_part or_whole
client_ip-append trim split_host_port r forged addr h named =
    elim (Bool-cases (str_eq (trim addr) "")) [
      | inl blank ↦ absurd (ground (arith, eq_iff (trim addr) ""))
      | inr filled ↦ rw (not_empty forged addr, behind_comma-append forged addr h, filled)
    ]
