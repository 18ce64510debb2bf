-- ===== src/Tokens/SingleUse.antt =====
-- A refresh token can be used once.
use finance_project.Prelude.{
  ℕ, String, ◌≡◌, ◌≢◌, refl, sym, ap, ◌∙◌, subst, Bool, true, false, ◌&&◌, List, [], ◌∷◌, ◌++◌,
  str_eq, eq_iff, ◌==◌, ==_refl, if◌then◌else◌, Bool-cases, inl, inr,
}
use mathlib.Core.List.{Memᴰ}
use finance_project.Models.{Uuid, RefreshToken, tokens, is_revoked}
use finance_project.Action.{ok}
use finance_project.Platform.{Platform}
use finance_project.Platform.Reply.{failed}
use finance_project.Platform.Database.{update_where}
use finance_project.Session.{World}
use finance_project.Tokens.{TokenService, hash_token, set_family, replace_by, refresh_tokens}
use finance_project.Tokens.Rotation.{applied, IsRefreshed, refresh_tokens-IsRefreshed}

member_of_update :
    {A : Type 0} (p : A → Bool) (f : A → A) (a : A) (rs : List A)
    → Memᴰ a (update_where p f rs)
    → (r : A) × Memᴰ r rs × (a ≡ (if p r then f r else r))
member_of_update p f a [] m = elim m [ ]
member_of_update p f a (r ∷ rs) (Memᴰ.head e) = (r, Memᴰ.head refl, e)
member_of_update p f a (r ∷ rs) (Memᴰ.tail m) =
    let (s, n, e) = member_of_update p f a rs m in (s, Memᴰ.tail n, e)

member_of_applied :
    {A : Type 0} (b : Bool) (p : A → Bool) (f : A → A) (a : A) (rs : List A)
    → Memᴰ a (applied b p f rs)
    → (r : A) × Memᴰ r rs × (a ≡ (if b && p r then f r else r))
member_of_applied true p f a rs m = member_of_update p f a rs m
member_of_applied false p f a rs m = (a, m, refl)

member-append : {A : Type 0} (a : A) (xs ys : List A) → Memᴰ a xs → Memᴰ a (xs ++ ys)
member-append a [] ys m = elim m [ ]
member-append a (x ∷ xs) ys (Memᴰ.head e) = Memᴰ.head e
member-append a (x ∷ xs) ys (Memᴰ.tail m) = Memᴰ.tail (member-append a xs ys m)

keeps :
    {A B : Type 0} (g : A → B) (f : A → A)
    → ((a : A) → g (f a) ≡ g a)
    → (b : Bool) (a : A) → g (if b then f a else a) ≡ g a
keeps g f h true a = h a
keeps g f h false a = refl

module _ (P : Platform) where
  -- Once the presented token is retired, every stored token with its hash is revoked.
  retired_of_hash :
      (s : TokenService) (raw : String) {pair : String × String} {d e : P.Db}
      (r : IsRefreshed P s raw pair d e)
      → r.linked.retired ≡ true
      → (t : RefreshToken) → Memᴰ t (P.rows tokens e)
      → str_eq t.token_hash (hash_token P raw) ≡ true
      → is_revoked t ≡ true
  retired_of_hash s raw {pair} {d} {e} r retired t m presented =
      let l = r.linked in
      let old = r.existing in
      let is_old = (λ (x : RefreshToken). x.id == old.id) in
      let is_fresh = (λ (x : RefreshToken). x.id == l.fresh.id) in
      let retire = replace_by l.now l.fresh.id in
      let link = set_family old.family_id in
      let (t₁, m₁, is_t) =
        member_of_applied l.retired is_old retire t _ (subst (Memᴰ t) l.token_rows m) in
      let (t₂, m₂, is_t₁) = member_of_applied l.linked is_fresh link t₁ _ m₁ in
      let stays = member-append old (P.rows tokens d) (r.issued.row ∷ []) r.may_refresh.known in
      let known = subst (Memᴰ old) (sym r.issued.token_rows) stays in
      let same_hash : t₂.token_hash ≡ old.token_hash =
        sym (keeps (λ x. x.token_hash) link (λ x. refl) (l.linked && is_fresh t₂) t₂)
        ∙ ap (λ x. x.token_hash) (sym is_t₁)
        ∙ sym (keeps (λ x. x.token_hash) retire (λ x. refl) (l.retired && is_old t₁) t₁)
        ∙ ap (λ x. x.token_hash) (sym is_t)
        ∙ (eq_iff t.token_hash (hash_token P raw)).0 presented
        ∙ sym ((eq_iff old.token_hash (hash_token P raw)).0 r.may_refresh.presented) in
      let same = P.hashes_distinct r.issued_db t₂ old m₂ known same_hash in
      let same_id : t₁.id ≡ old.id =
        ap (λ x. x.id) is_t₁
        ∙ keeps (λ x. x.id) link (λ x. refl) (l.linked && is_fresh t₂) t₂
        ∙ ap (λ x. x.id) same in
      rw (is_t, retired, same_id, ==_refl old.id) refl

  -- A refresh token that RefreshTokens has exchanged for a pair is refused from then on, as long
  -- as the rows of the tokens are those that the exchange left, if the database did not refuse
  -- the update that retires the token.
  pub refresh_tokens_once :
      (s : TokenService) (raw : String) (w : World P) {u : World P} {pair : String × String}
      → refresh_tokens P s raw w ≡ (ok pair, u)
      → ((p : RefreshToken → Bool) (now : ℕ) (id : Uuid) (d : P.Db) (c : String)
          → P.update tokens p (replace_by now id) d ≢ failed c)
      → (s' : TokenService) (v : World P) → P.rows tokens v.db ≡ P.rows tokens u.db
      → (again : String × String) → (refresh_tokens P s' raw v).0 ≢ ok again
  refresh_tokens_once s raw w {u} {pair} h accepts s' v same again h' =
      let first = refresh_tokens-IsRefreshed P s raw w h in
      let second =
        refresh_tokens-IsRefreshed P s' raw v (ap (λ x. (x, (refresh_tokens P s' raw v).1)) h') in
      let may = second.may_refresh in
      elim (Bool-cases first.linked.retired) [
        | inl retired ↦
            let revoked =
              retired_of_hash s raw first retired second.existing
                (subst (Memᴰ second.existing) same may.known) may.presented in
            cc (revoked, may.live)
        | inr kept ↦ let (f, c, e) = first.linked.refused kept in absurd (accepts _ _ _ f c e)
      ]
