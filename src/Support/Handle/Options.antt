-- ===== src/Support/Handle/Options.antt =====
-- What the options and the statuses are after an operation.
use rbase.Base.{
  ℕ, ◌<◌, ◌≡◌, ◌≢◌, refl, sym, ap, ◌∙◌, ◌↔◌, Bool, true, false, Option, none, some, List, length,
  get_elem?, leb, get_elem?-set_self, get_elem?-set_ne, arith, lt→leb_false, Bool-cases, inl, inr,
  if◌then◌else◌,
}
use rbase.Base
use rbase.Support.{status_ok, is_error, option_count}
use rbase.Support.Client
use rbase.Support.Client.{
  Client, Read, received, at_end, read_failed, Errno, eagain, eio, ebadf, other_errno,
}
use rbase.Support.Handle.{Handle, set_option, get_option, or_false}

module _ {B S : Type 0} where
  -- An option that is set is read back, and the other keeps its value.
  pub get_option-set_option :
      (o : ℕ) (b : Bool) (h : Handle B S) (q : ℕ)
      → o < option_count
      → length h.options ≡ option_count
      → o ≢ q
      → (h' : Handle B S) × (set_option o b (some h) ≡ (status_ok, some h'))
        × (get_option o (some h') ≡ b)
        × (get_option q (some h') ≡ get_option q (some h))
  unfolding set_option get_option
  get_option-set_option o b h q within size ne = (
    record h { options = Base.set h.options o b },
    rw (lt→leb_false option_count o within) refl,
    rw (lt→leb_false option_count o within)
        (ap or_false (get_elem?-set_self h.options o b (omega arith))),
    ap (λ e. if leb option_count q then false else or_false e) (get_elem?-set_ne h.options b ne),
  )

-- `service` reports an error exactly when `read` fails with another `errno` than `EAGAIN`.
pub service-error_iff :
    (r : Read) (c : Client)
    → (is_error (Client.service r c).0 ≡ true) ↔ ((e : Errno) × (r ≡ read_failed e) × (e ≢ eagain))
unfolding is_error Client.service
service-error_iff (received b bs) c = ((λ e. cc), (λ h. cc (h.1)))
service-error_iff at_end c = ((λ e. cc), (λ h. cc (h.1)))
service-error_iff (read_failed eagain) c =
    ((λ e. cc), (λ h. absurd (h.2 (let same : h.0 ≡ eagain = cc (h.1) in same))))
service-error_iff (read_failed eio) c = ((λ e. (eio, refl, λ f. cc)), (λ h. refl))
service-error_iff (read_failed ebadf) c = ((λ e. (ebadf, refl, λ f. cc)), (λ h. refl))
service-error_iff (read_failed other_errno) c = ((λ e. (other_errno, refl, λ f. cc)), (λ h. refl))
