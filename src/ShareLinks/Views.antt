-- ===== src/ShareLinks/Views.antt =====
-- How often a link of backend/internal/api/handlers/share_links.go can be opened.
use passbubble.Prelude.{
  ℕ, ◌+◌, ◌-◌, ◌≤◌, String, Bool, true, false, some, List, [], ◌∷◌, ◌==◌, str_eq, if◌then◌else◌,
  Bool-cases, inl, inr, ◌≡◌, refl, arith, find-update, All, ◌⊎◌,
}
use passbubble.Store.{World, Db, Claims, Response, error, reply, ShareLinkRow, ◌>>=◌}
use passbubble.ShareLinks.{
  Links, PublicLink, payload, used_up, is_dead, count_view, show_link, open_link, link_by_token,
  get_share_link, own_link, revoke_share_link,
}

abbrev pub is_shown : Response PublicLink → Bool
is_shown (reply s (payload p a b)) = true
is_shown _ = false

-- How many of the requests for a token, each with its own password, are shown the payload.
unfoldable pub times_shown : Links → String → List (World × String) → Db → ℕ
times_shown links token [] db = 0
times_shown links token ((w, password) ∷ rest) db =
    let r = get_share_link links w token password db in
    (if is_shown r.1 then 1 else 0) + times_shown links token rest r.0

abbrev pub viewed : ShareLinkRow → ShareLinkRow
viewed l = record l { view_count = l.view_count + 1 }

count_view_lem :
    (w : World) (n : ℕ) (token : String) (db : Db) (l : ShareLinkRow)
    → w.fails n ≡ false
    → link_by_token token db ≡ some l
    → link_by_token token (count_view w n l.id db) ≡ some (viewed l)
unfolding count_view link_by_token ◌>>=◌
count_view_lem w n token db l ok found = ground (
  arith,
  ok,
  found,
  find-update (λ r. str_eq r.token token) (λ r. r.id == l.id) viewed db.share_links (λ r. refl),
)

-- What one request does to a link of limited views.
opened :
    (links : Links) (w : World) (token password : String) (db : Db) (l : ShareLinkRow)
    → w.fails 1 ≡ false
    → link_by_token token db ≡ some l
    → ((is_shown (get_share_link links w token password db).1 ≡ false)
        × (link_by_token token (get_share_link links w token password db).0 ≡ some l))
      ⊎ ((is_shown (get_share_link links w token password db).1 ≡ true)
          × (used_up l ≡ false)
          × (link_by_token token (get_share_link links w token password db).0 ≡ some (viewed l)))
unfolding get_share_link open_link is_dead show_link
opened links w token password db l ok found =
    elim (Bool-cases (is_shown (get_share_link links w token password db).1)) [
      | inl e ↦ inr (e, ground arith, ground (arith, count_view_lem w 1 token db l ok found))
      | inr e ↦ inl (e, ground arith)
    ]

-- If the link has a limit of views and no request fails to count its view, then however many
-- requests come, with whatever passwords and at whatever times, the payload is shown at most as
-- often as views are left.
pub times_shown-bound :
    (links : Links) (token : String) (requests : List (World × String)) (db : Db) (l : ShareLinkRow)
    (limit : ℕ)
    → link_by_token token db ≡ some l
    → l.max_views ≡ some limit
    → All (λ (r : World × String). r.0.fails 1 ≡ false) requests
    → times_shown links token requests db ≤ limit - l.view_count
unfolding times_shown
times_shown-bound links token [] db l limit found max ok = ground arith
times_shown-bound links token ((w, password) ∷ rest) db l limit found max ok =
    elim (opened links w token password db l ok.0 found) [
      | inl (e, same) ↦ ground (arith, times_shown-bound links token rest _ l limit same max ok.1)
      | inr (e, left, next) ↦
          ground (arith, times_shown-bound links token rest _ (viewed l) limit next max ok.1)
    ]

-- Once the owner of a link has revoked it, its token answers 410, whatever the password, unless the
-- query fails.
pub revoke-gone :
    (links : Links) (w later : World) (caller : Claims) (token password : String) (db : Db)
    (l : ShareLinkRow)
    → w.fails 0 ≡ false
    → later.fails 0 ≡ false
    → link_by_token token db ≡ some l
    → l.owner_id ≡ caller.user_id
    → (get_share_link links later token password (revoke_share_link w caller l.id db).0).1
      ≡ error 410 "share link expired or revoked"
unfolding get_share_link open_link is_dead revoke_share_link link_by_token
revoke-gone links w later caller token password db l ok ok' found own = ground (
  arith,
  find-update (λ r. str_eq r.token token) (own_link l.id caller.user_id)
      (λ (r : ShareLinkRow). record r { revoked_at = some w.now }) db.share_links (λ r. refl),
)
