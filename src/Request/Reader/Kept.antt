-- ===== src/Request/Reader/Kept.antt =====
-- What the header lines of lmd/request.go leave as it was.
use mathlib.Core.Path.{subst}
use lmd.Prelude.{
  is_nil, arith, ap, ◌∙◌, ℕ, ◌≡◌, refl, Bool, true, false, ◌&&◌, ◌||◌, Option, none, some, List, [],
  ◌∷◌, Bytes, Result, ok, err, ◌>>=◌, >>=-eq-ok, if◌then◌else◌, codes, drop, ok-injective,
}
use lmd.Prelude.Int.{ℤ, pos, leb_ℤ}
use lmd.Prelude.Dict.{lookup}
use lmd.Runtime.{Go}
use lmd.BadRequest.{Failure}
use lmd.Objects.{ObjectsType}
use lmd.Text.{has_prefix, trim_space, split_n, to_lower}
use lmd.Request.{Request}
use lmd.Request.Header.{
  Keyword, keyword, filter, and, or, stats, stats_and, stats_or, sort, limit, offset, backends,
  columns, response_header, output_format, wait_timeout, wait_trigger, wait_object, wait_condition,
  keep_alive, unrecognized, header_case, parse_int_header, parse_request_header_line, header_parts,
}
use lmd.Request.Reader.{is_command, read_headers}

abbrev pub is_some {ℓ} : {A : Type ℓ} → Option A → Bool
is_some none = false
is_some (some x) = true

module _ (go : Go) (o : ObjectsType) where
  -- a table of the store, or a command of its form
  abbrev pub is_addressed : Request go → Bool
  is_addressed req =
      is_some (lookup req.table o.tables)
      || (has_prefix req.command (codes "COMMAND ") && is_command (drop 8 req.command))

  abbrev pub is_bounded : Request go → Bool
  is_bounded req =
      leb_ℤ (pos 0) req.limit && (leb_ℤ (pos 0) req.offset && leb_ℤ (pos 0) req.wait_timeout)

  parse_int_header-least :
      (header value : Bytes) {i : ℤ} (least : ℕ)
      → parse_int_header header value (pos least) ≡ ok i
      → leb_ℤ (pos 0) i ≡ true
  unfolding parse_int_header
  parse_int_header-least header value least eq = ground arith

  -- what a header line leaves as it was
  abbrev pub Keeps : Request go → Request go → Type 0
  Keeps req req' =
      (req'.table ≡ req.table)
      × (req'.command ≡ req.command)
      × (is_bounded req ≡ true → is_bounded req' ≡ true)

  -- a header that computes a value and sets a field to it
  bind-Keeps :
      {A : Type 0} (m : Result Failure A) (f : A → Request go) (req : Request go)
      {req' : Request go}
      → ((a : A) → m ≡ ok a → Keeps req (f a))
      → (m >>= λ a. ok (f a)) ≡ ok req'
      → Keeps req req'
  bind-Keeps (ok a) f req keeps eq = subst (Keeps req) (ok-injective eq) (keeps a refl)
  bind-Keeps (err e) f req keeps eq = cc

  set-Keeps :
      (req next : Request go) {req' : Request go}
      → Keeps req next
      → ◌≡◌ {A = Result Failure (Request go)} (ok next) (ok req')
      → Keeps req req'
  set-Keeps req next {req'} keeps eq = subst (Keeps req) (ok-injective eq) keeps

  header_case-Keeps :
      (line : Bytes) (k : Keyword) (header value : Bytes) (req : Request go) {req' : Request go}
      → header_case go o line k header value req ≡ ok req'
      → Keeps req req'
  unfolding header_case
  header_case-Keeps line filter header value req eq =
      bind-Keeps _ _ req (λ _ _. (refl, refl, λ h. h)) eq
  header_case-Keeps line and header value req eq =
      bind-Keeps _ _ req (λ _ _. (refl, refl, λ h. h)) eq
  header_case-Keeps line or header value req eq =
      bind-Keeps _ _ req (λ _ _. (refl, refl, λ h. h)) eq
  header_case-Keeps line stats header value req eq =
      bind-Keeps _ _ req (λ _ _. (refl, refl, λ h. h)) eq
  header_case-Keeps line stats_and header value req eq =
      bind-Keeps _ _ req (λ _ _. (refl, refl, λ h. h)) eq
  header_case-Keeps line stats_or header value req eq =
      bind-Keeps _ _ req (λ _ _. (refl, refl, λ h. h)) eq
  header_case-Keeps line sort header value req eq =
      bind-Keeps _ _ req (λ _ _. (refl, refl, λ h. h)) eq
  header_case-Keeps line limit header value req eq =
      bind-Keeps _ _ req
        (λ i eq'.
          (refl, refl, λ h. let least = parse_int_header-least header value 1 eq' in ground arith))
        eq
  header_case-Keeps line offset header value req eq =
      bind-Keeps _ _ req
        (λ i eq'.
          (refl, refl, λ h. let least = parse_int_header-least header value 0 eq' in ground arith))
        eq
  header_case-Keeps line backends header value req eq = set-Keeps req _ (refl, refl, λ h. h) eq
  header_case-Keeps line columns header value req eq = set-Keeps req _ (refl, refl, λ h. h) eq
  header_case-Keeps line response_header header value req eq =
      bind-Keeps _ _ req (λ _ _. (refl, refl, λ h. h)) eq
  header_case-Keeps line output_format header value req eq =
      bind-Keeps _ _ req (λ _ _. (refl, refl, λ h. h)) eq
  header_case-Keeps line wait_timeout header value req eq =
      bind-Keeps _ _ req
        (λ i eq'.
          (refl, refl, λ h. let least = parse_int_header-least header value 1 eq' in ground arith))
        eq
  header_case-Keeps line wait_trigger header value req eq = set-Keeps req _ (refl, refl, λ h. h) eq
  header_case-Keeps line wait_object header value req eq = set-Keeps req _ (refl, refl, λ h. h) eq
  header_case-Keeps line wait_condition header value req eq =
      bind-Keeps _ _ req (λ _ _. (refl, refl, λ h. h)) eq
  header_case-Keeps line keep_alive header value req eq =
      bind-Keeps _ _ req (λ _ _. (refl, refl, λ h. h)) eq
  header_case-Keeps line unrecognized header value req eq = cc

  Keeps-trans : (a b c : Request go) → Keeps a b → Keeps b c → Keeps a c
  Keeps-trans a b c (t, m, k) (t', m', k') = (t' ∙ t, m' ∙ m, λ h. k' (k h))

  header_parts-Keeps :
      (line : Bytes) (parts : List Bytes) (req : Request go) {req' : Request go}
      → header_parts go o line parts req ≡ ok req'
      → Keeps req req'
  header_parts-Keeps line (name ∷ value ∷ []) req eq =
      header_case-Keeps line (keyword (to_lower name)) (to_lower name) value req eq
  header_parts-Keeps line [] req eq = cc
  header_parts-Keeps line (a ∷ []) req eq = cc
  header_parts-Keeps line (a ∷ b ∷ c ∷ d) req eq = cc

  parse_request_header_line-Keeps :
      (line : Bytes) (req : Request go) {req' : Request go}
      → parse_request_header_line go o line req ≡ ok req'
      → Keeps req req'
  unfolding parse_request_header_line
  parse_request_header_line-Keeps line req eq =
      header_parts-Keeps line (split_n line (codes ": ") 2) req eq

  stop-Keeps :
      (b : Bool) (req : Request go) (size : ℕ) (rest : List Bytes)
      (more : Result Failure (Request go × ℕ × List Bytes)) {req' : Request go} {size' : ℕ}
      {left : List Bytes}
      → (more ≡ ok (req', size', left) → Keeps req req')
      → (if b then ok (req, size, rest) else more) ≡ ok (req', size', left)
      → Keeps req req'
  stop-Keeps true req size rest more keeps eq =
      subst (Keeps req) (ap (λ r. r.0) (ok-injective eq)) (refl, refl, λ h. h)
  stop-Keeps false req size rest more keeps eq = keeps eq

  -- the request that `read_headers` returns
  pub read_headers-Keeps :
      (lines : List Bytes) (size : ℕ) (req : Request go) {req' : Request go} {size' : ℕ}
      {left : List Bytes}
      → read_headers go o lines size req ≡ ok (req', size', left)
      → Keeps req req'
  unfolding read_headers
  read_headers-Keeps [] size req eq =
      subst (Keeps req) (ap (λ r. r.0) (ok-injective eq)) (refl, refl, λ h. h)
  read_headers-Keeps (line ∷ rest) size req {req'} eq =
      stop-Keeps (is_nil (trim_space line)) req _ rest _
        (λ eq'.
          let (next, parsed, read) = >>=-eq-ok _ _ eq' in
          Keeps-trans req next req' (parse_request_header_line-Keeps (trim_space line) req parsed)
            (read_headers-Keeps rest _ next read))
        eq
