-- ===== src/Credentials/Oauth/Rotation.antt =====
-- Theorems on rotateAccessToken and Refresh of credentials/oauth.go: what they leave in the store.
use particles.Base.{
  String, ◌≡◌, ◌≢◌, refl, ap, ◌∙◌, ◌&&◌, not, Option, none, some, arith, str_eq, if◌then◌else◌,
}
use particles.Credentials.{
  Metadata, oauth2_meta, Bytes, Result, ok, err, access_token, refresh_token, Descriptor,
}
use particles.Credentials.Store.{Store, IsLawful}
use particles.Credentials.Memory.View.{last_value}
use particles.Credentials.Oauth.{
  AccessToken, RefreshRequest, RefreshResponse, RotateError, Outcome, done, failed, is_empty,
  bundle_of, rotated, obtain, stored, commit, rotate_access_token, refresh, refresh_found,
  refresh_meta, rotation_reply, OauthError,
}

module _ (marshal : AccessToken → Bytes) (text : Bytes → String) where
  -- The value that a rotation gives a role, if it writes it.
  abbrev pub rotated_value : RefreshResponse → String → Option Bytes
  rotated_value r role =
      if str_eq refresh_token role && not (is_empty r.refresh_token)
      then some r.refresh_token
      else if str_eq access_token role
      then some (marshal (bundle_of marshal text r))
      else none

  last_value-rotated :
      (r : RefreshResponse) (role : String)
      → last_value role (rotated marshal text r) ≡ rotated_value r role
  unfolding rotated
  last_value-rotated r role = ground arith

  module _ {S : Type 0} (store : Store S) (refresher : RefreshRequest → Result RefreshResponse)
      {IsGood : S → Type 0} (lawful : IsLawful store IsGood) where
    -- The store after a rotation with the response `r`.
    abbrev pub IsRotated : S → String → RefreshResponse → S → Type 0
    IsRotated s id r t =
        (i role : String)
        → store.read_secret t i role ≡ (
            if str_eq id i
            then elim (rotated_value r role) [ some v ↦ ok v | none ↦ store.read_secret s i role ]
            else store.read_secret s i role)

    stored_done :
        (r : RefreshResponse) (p : Result (Unit {0}) × S) (token : AccessToken)
        → (stored marshal text store refresher r p).0 ≡ done token
        → (token ≡ bundle_of marshal text r)
          × (p.0 ≡ ok tt)
          × ((stored marshal text store refresher r p).1 ≡ p.1)
    unfolding stored
    stored_done r (ok u, t) token h = (ground arith, refl, refl)
    stored_done r (err e, t) token h = cc

    commit_done :
        (s : S) (id : String) (o : Outcome RefreshResponse) (token : AccessToken)
        → IsGood s
        → (commit marshal text store refresher s id o).0 ≡ done token
        → (r : RefreshResponse) × (o ≡ done r)
          × (token ≡ bundle_of marshal text r)
          × IsRotated s id r (commit marshal text store refresher s id o).1
    unfolding commit
    commit_done s id (failed e) token h k = cc
    commit_done s id (done r) token h k =
        let (e, written, same) =
          stored_done r (store.write_secrets s id (rotated marshal text r)) token k in
        (
          r,
          refl,
          e,
          λ i role.
              ap (λ (t : S). store.read_secret t i role) same
              ∙ (lawful.written s id (rotated marshal text r) h written i role
                  ∙ ap
                      (λ (o : Option Bytes).
                        if str_eq id i
                        then elim o [ some v ↦ ok v | none ↦ store.read_secret s i role ]
                        else store.read_secret s i role)
                      (last_value-rotated r role)),
        )

    -- A rotation that succeeds answers the bundle of the provider's response. In the store, the id
    -- reads the bundle as its access token, and as its refresh token the new one if there is one;
    -- its other secrets and those of every other id are as before.
    pub rotate_done :
        (s : S) (id : String) (token : AccessToken)
        → IsGood s
        → (rotate_access_token marshal text store refresher s id).0 ≡ done token
        → (r : RefreshResponse) × (obtain marshal text store refresher s id ≡ done r)
          × (token ≡ bundle_of marshal text r)
          × IsRotated s id r (rotate_access_token marshal text store refresher s id).1
    unfolding rotate_access_token
    rotate_done s id token h k =
        commit_done s id (obtain marshal text store refresher s id) token h k

    stored_failed :
        (r : RefreshResponse) (p : Result (Unit {0}) × S) (s : S) (e : RotateError)
        → (p.0 ≢ ok tt → p.1 ≡ s)
        → (stored marshal text store refresher r p).0 ≡ failed e
        → (stored marshal text store refresher r p).1 ≡ s
    unfolding stored
    stored_failed r (ok u, t) s e keeps h = cc
    stored_failed r (err x, t) s e keeps h = keeps (λ k. cc)

    commit_failed :
        (s : S) (id : String) (o : Outcome RefreshResponse) (e : RotateError)
        → (commit marshal text store refresher s id o).0 ≡ failed e
        → (commit marshal text store refresher s id o).1 ≡ s
    unfolding commit
    commit_failed s id (failed x) e h = refl
    commit_failed s id (done r) e h =
        stored_failed r (store.write_secrets s id (rotated marshal text r)) s e
          (lawful.refused s id (rotated marshal text r)) h

    reply_failed :
        (p : Outcome AccessToken × S) (s : S) (e : OauthError)
        → ((x : RotateError) → p.0 ≡ failed x → p.1 ≡ s)
        → (rotation_reply marshal text store refresher p).0 ≡ some e
        → (rotation_reply marshal text store refresher p).1 ≡ s
    unfolding rotation_reply
    reply_failed (done token, t) s e keeps h = cc
    reply_failed (failed x, t) s e keeps h = keeps x refl

    meta_failed :
        (s : S) (d : Descriptor) (m : Metadata) (e : OauthError)
        → (refresh_meta marshal text store refresher s d m).0 ≡ some e
        → (refresh_meta marshal text store refresher s d m).1 ≡ s
    unfolding refresh_meta
    meta_failed s d (oauth2_meta m) e h =
        unfold rotate_access_token in
        reply_failed (rotate_access_token marshal text store refresher s d.id) s e
          (λ x k. commit_failed s d.id (obtain marshal text store refresher s d.id) x k) h
    meta_failed s d other e h = refl

    found_failed :
        (s : S) (r : Result Descriptor) (e : OauthError)
        → (refresh_found marshal text store refresher s r).0 ≡ some e
        → (refresh_found marshal text store refresher s r).1 ≡ s
    unfolding refresh_found
    found_failed s (err x) e h = refl
    found_failed s (ok d) e h = meta_failed s d d.meta e h

    -- A refresh that the particle sees fail, in whatever way, changed nothing in the store.
    pub refresh_failed_keeps :
        (s : S) (name : String) (e : OauthError)
        → (refresh marshal text store refresher s name).0 ≡ some e
        → (refresh marshal text store refresher s name).1 ≡ s
    unfolding refresh
    refresh_failed_keeps s name e h = found_failed s (store.get_by_name s name) e h
