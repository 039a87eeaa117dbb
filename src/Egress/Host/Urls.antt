-- ===== src/Egress/Host/Urls.antt =====
-- The host that `host_of` finds: right on a well-formed URL, and clean on any text at all.
use kanbrick_v.Common.{
  ℕ, Text, codes, [], ◌∷◌, ◌++◌, Bool, ◌≡◌, refl, arith, none, some, append_assoc, inl, inr,
  Option-cases, subst,
}
use kanbrick_v.Egress.Host.{
  after_separator, up_to, after_last, or_else_text, ends_authority, is_colon, is_at, host_of,
  Avoids, ends_host, IsUser, IsPort, IsRest,
}

after_separator-append :
    (s rest : Text) → Avoids is_colon s → after_separator (s ++ (codes "://" ++ rest)) ≡ some rest
unfolding after_separator
after_separator-append [] rest h = refl
after_separator-append (c ∷ []) rest h = rw h.0
after_separator-append (c ∷ d ∷ []) rest h = rw (h.0, h.1.0)
after_separator-append (c ∷ d ∷ e ∷ s) rest h =
    rw (h.0) (after_separator-append (d ∷ e ∷ s) rest h.1)

up_to-append :
    (p : ℕ → Bool) (s rest : Text) → Avoids p s → up_to p rest ≡ [] → up_to p (s ++ rest) ≡ s
unfolding up_to
up_to-append p [] rest h e = e
up_to-append p (c ∷ s) rest h e = rw (h.0, up_to-append p s rest h.1 e)

after_last-none : (s : Text) → Avoids is_at s → after_last b'@' s ≡ none
unfolding after_last
after_last-none [] h = refl
after_last-none (c ∷ s) h = ground (arith, after_last-none s h.1)

after_last-append : (s t : Text) → Avoids is_at t → after_last b'@' (s ++ b'@' ∷ t) ≡ some t
unfolding after_last
after_last-append [] t h = ground (arith, after_last-none t h)
after_last-append (c ∷ s) t h = ground (arith, after_last-append s t h)

Avoids-append : (p : ℕ → Bool) (s t : Text) → Avoids p s → Avoids p t → Avoids p (s ++ t)
Avoids-append p [] t hs ht = ht
Avoids-append p (c ∷ s) t hs ht = (hs.0, Avoids-append p s t hs.1 ht)

Avoids-up_to : (p q : ℕ → Bool) (s : Text) → Avoids q s → Avoids q (up_to p s)
unfolding up_to
Avoids-up_to p q [] h = tt
Avoids-up_to p q (c ∷ s) h = ground (arith, Avoids-up_to p q s h.1)

up_to-Avoids : (p : ℕ → Bool) (s : Text) → Avoids p (up_to p s)
unfolding up_to
up_to-Avoids p [] = tt
up_to-Avoids p (c ∷ s) = ground (arith, up_to-Avoids p s)

-- What `host_of` does with the authority and with the part behind the user.
abbrev host_part : Text → Text
host_part authority = or_else_text (after_last b'@' authority) authority

up_to-rest : (rest : Text) → IsRest rest → up_to ends_authority rest ≡ []
unfolding up_to
up_to-rest rest (inl e) = rw e
up_to-rest rest (inr (c, s, e, h)) = rw (e, h)

up_to-port : (port : Text) → IsPort port → up_to is_colon port ≡ []
unfolding up_to
up_to-port port (inl e) = rw e
up_to-port port (inr (p, e, _, _)) = rw e

Avoids-parts :
    (h : Text) → Avoids ends_host h → Avoids ends_authority h × Avoids is_at h × Avoids is_colon h
Avoids-parts [] a = (tt, tt, tt)
Avoids-parts (c ∷ h) a = ground (arith, Avoids-parts h a.1)

IsPort-Avoids : (port : Text) → IsPort port → Avoids ends_authority port × Avoids is_at port
IsPort-Avoids port (inl e) = rw e (tt, tt)
IsPort-Avoids port (inr (p, e, a, b)) = rw e ((refl, a), (refl, b))

IsUser-Avoids : (user : Text) → IsUser user → Avoids ends_authority user
IsUser-Avoids user (inl e) = rw e tt
IsUser-Avoids user (inr (u, e, a)) = rw e (Avoids-append ends_authority u (b'@' ∷ []) a (refl, tt))

host_part_user : (user t : Text) → IsUser user → Avoids is_at t → host_part (user ++ t) ≡ t
host_part_user user t (inl e) a = rw (e, after_last-none t a)
host_part_user user t (inr (u, e, _)) a =
    rw (e, append_assoc u (b'@' ∷ []) t, after_last-append u t a)

-- On `scheme://user@host:port/rest`, where the user, the port and the rest may be absent, where
-- the scheme has no colon, and where no part has a delimiter of a later one, the host comes out.
pub host_of_url :
    (scheme user h port rest : Text)
    → Avoids is_colon scheme
    → IsUser user
    → Avoids ends_host h
    → IsPort port
    → IsRest rest
    → host_of (scheme ++ (codes "://" ++ (user ++ (h ++ port) ++ rest))) ≡ h
unfolding host_of
host_of_url scheme user h port rest hs hu hh hp hr =
    let (h_auth, h_at, h_colon) = Avoids-parts h hh in
    let (p_auth, p_at) = IsPort-Avoids port hp in
    let whole =
      Avoids-append ends_authority user (h ++ port) (IsUser-Avoids user hu)
        (Avoids-append ends_authority h port h_auth p_auth) in
    rw (
      after_separator-append scheme (user ++ (h ++ port) ++ rest) hs,
      up_to-append ends_authority (user ++ (h ++ port)) rest whole (up_to-rest rest hr),
      host_part_user user (h ++ port) hu (Avoids-append is_at h port h_at p_at),
      up_to-append is_colon h port h_colon (up_to-port port hp),
    )

none-Avoids : (s : Text) → after_last b'@' s ≡ none → Avoids is_at s
unfolding after_last
none-Avoids [] e = tt
none-Avoids (c ∷ s) e = ground (arith, none-Avoids s)

after_last-Avoids :
    (p : ℕ → Bool) (s t : Text)
    → Avoids p s
    → after_last b'@' s ≡ some t
    → Avoids p t × Avoids is_at t
unfolding after_last
after_last-Avoids p [] t h e = cc
after_last-Avoids p (c ∷ s) t h e = elim (Option-cases (after_last b'@' s)) [
  | inl last ↦
      let q : s ≡ t = ground arith in
      subst (λ w. Avoids p w × Avoids is_at w) q (h.1, none-Avoids s last)
  | inr (u, later) ↦ after_last-Avoids p s t h.1 (ground arith)
]

host_part-Avoids :
    (p : ℕ → Bool) (s : Text) → Avoids p s → Avoids p (host_part s) × Avoids is_at (host_part s)
host_part-Avoids p s h = elim (Option-cases (after_last b'@' s)) [
  | inl missing ↦ rw missing (h, none-Avoids s missing)
  | inr (t, found) ↦ rw found (after_last-Avoids p s t h found)
]

Avoids-join :
    (s : Text) → Avoids ends_authority s → Avoids is_at s → Avoids is_colon s → Avoids ends_host s
Avoids-join [] a b d = tt
Avoids-join (c ∷ s) a b d = ground (arith, Avoids-join s a.1 b.1 d.1)

-- Whatever the URL, the text that the allowlist is asked about holds no `/`, `?`, `#`, `@` or `:`.
pub host_of-Avoids : (url : Text) → Avoids ends_host (host_of url)
unfolding host_of
host_of-Avoids url =
    let after_scheme = or_else_text (after_separator url) url in
    let authority = up_to ends_authority after_scheme in
    let (a, b) =
      host_part-Avoids ends_authority authority (up_to-Avoids ends_authority after_scheme) in
    let host = host_part authority in
    Avoids-join (up_to is_colon host) (Avoids-up_to is_colon ends_authority host a)
      (Avoids-up_to is_colon is_at host b) (up_to-Avoids is_colon host)
