-- ===== src/Server/Oidc/Redirects.antt =====
-- Where internal/server/handler_oidc.go sends a user behind a login.
use wgrift.Base.{
  ◌≡◌, refl, true, false, not, ◌||◌, arith, Text, codes, is_nil, has_prefix, inl, inr, Bool-cases,
}
use wgrift.App.{Env}
use wgrift.App.Total.{Total, Total-pure, Total-bind, Total-if}
use wgrift.Server.{Server, Request, text_or}
use wgrift.Server.Response.{Response, redirect, redirect_to}
use wgrift.Server.Answers.{Total-answering, external_url-Total}
use wgrift.Server.Oidc.{sanitize_redirect_url, enter, handle_oidc_callback, CallbackQuery}

-- A path of this site: one slash at the front, and not two.
abbrev pub IsLocal : Text → Type 0
IsLocal u = (has_prefix u (codes "/") ≡ true) × (has_prefix u (codes "//") ≡ false)

abbrev pub IsLocalRedirect : Response → Type 0
IsLocalRedirect resp = (u : Text) × (resp.body ≡ redirect u) × (resp.status ≡ 302) × IsLocal u

sanitized_or_root : (u : Text) → IsLocal (text_or (sanitize_redirect_url u) (codes "/"))
unfolding sanitize_redirect_url
sanitized_or_root u =
    let refused = is_nil u || not (has_prefix u (codes "/")) || has_prefix u (codes "//") in
    elim (Bool-cases refused) [
      | inl bad ↦ rw bad (unfold has_prefix in (refl, refl))
      | inr good ↦
          let filled : is_nil u ≡ false = ground (arith, good) in
          rw (good, filled) (ground (arith, good))
    ]

-- Whatever the provider, the stored state and the query say, a callback answers with a redirect to
-- a path of this site: not to another scheme, and not to another host by two slashes.
pub handle_oidc_callback-Total :
    (env : Env) (s : Server) (r : Request) (q : CallbackQuery)
    → Total env IsLocalRedirect (handle_oidc_callback s r q)
unfolding handle_oidc_callback enter has_prefix
handle_oidc_callback-Total env s r q =
    let local : (u : Text) → IsLocal u → Total env IsLocalRedirect (redirect_to u) =
      (λ u h. Total-pure _ _ (u, refl, refl, h)) in
    Total-if _ (not s.has_oidc) _ _ (λ no_service. local _ (refl, refl))
      (λ service.
        Total-if _ (not (is_nil q.error)) _ _ (λ denied. local _ (refl, refl))
          (λ asked.
            Total-if _ (is_nil q.code || is_nil q.state) _ _ (λ invalid. local _ (refl, refl))
              (λ valid.
                Total-bind (λ url. Unit) _ _ _ (external_url-Total s r)
                  (λ url u.
                    Total-answering _ _ _ _ (λ e. local _ (refl, refl))
                      (λ granted.
                        Total-answering _ _ _ _ (λ e. local _ (refl, refl))
                          (λ session.
                            Total-pure _ _ (_, refl, refl, sanitized_or_root granted.1)))))))
