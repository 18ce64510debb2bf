-- ===== src/Kept/Handlers.antt =====
-- The handlers that write keep what their statements keep.
use finance_project.Prelude.{
  Bool, not, ◌≡◌, refl, Option-cases, String, List, [], ◌∷◌, inl, inr, ltb, str_eq,
}
use finance_project.Models.{Uuid, LedgerEntry}
use finance_project.Action.{Action, Result, ok, err, panic}
use finance_project.Platform.{Platform}
use finance_project.Platform.Reply.{Reply, done, failed}
use finance_project.Session.{World}
use finance_project.Session.Keeps.{Keeps}
use finance_project.Tokens.{TokenService}
use finance_project.Auth.{AuthService}
use finance_project.Http.{Context, Response, get_string, serve, answer}
use finance_project.Http.Requests.{Json}
use finance_project.Handlers.{
  bound, bound_body, byte_length, identified, posted_answer, when_complete, missing_fields,
  missing_credentials, handle_post_transaction, handle_create_account, handle_create_record,
  handle_update_record, handle_delete_record, handle_update_user, handle_delete_user,
  handle_register, handle_login, handle_refresh, handle_logout,
}
use finance_project.Ledger.{PostTransactionRequest}
use finance_project.Kept.{KeptByStatements}
use finance_project.Kept.Tokens.{refresh_tokens-Keeps, revoke_all_user_tokens-Keeps}
use finance_project.Kept.Services.{
  Keeps-if, create_account-Keeps, register-Keeps, login-Keeps, create_record-Keeps,
  update_record-Keeps, delete_record-Keeps, update_user-Keeps, delete_user-Keeps,
}

module _ (P : Platform) (I : P.Db → Type 0) where
  -- An answer takes its state from the service.
  serve-Keeps :
      {A : Type 0} (m : Action (World P) A) (f : A → Response P.Decimal)
      → Keeps P I m
      → Keeps P I (serve P m f)
  unfolding serve
  serve-Keeps {A} m f kept w i = go (m w) (kept w i)
    where
      go : (x : Result A × World P) → I x.1.db → I (answer P f x).1.db
      go (ok a, u) j = j
      go (err c, u) j = j
      go (panic, u) j = j

  -- The handler knows where the body comes from.
  bound_body-Keeps_of :
      {A : Type 0} (bind : String → Reply A) (body : Reply String)
      (f : A → Action (World P) (Response P.Decimal))
      → ((text : String) (a : A) → bind text ≡ done a → Keeps P I (f a))
      → Keeps P I (bound_body P bind body f)
  bound_body-Keeps_of {A} bind (done text) f kept = go (bind text) refl
    where
      go : (r : Reply A) → bind text ≡ r → Keeps P I (bound P r f)
      go (done a) e = kept text a e
      go (failed cause) e = λ w i. i
  bound_body-Keeps_of bind (failed cause) f kept = λ w i. i

  bound_body-Keeps :
      {A : Type 0} (bind : String → Reply A) (body : Reply String)
      (f : A → Action (World P) (Response P.Decimal))
      → ((a : A) → Keeps P I (f a))
      → Keeps P I (bound_body P bind body f)
  bound_body-Keeps bind body f kept = bound_body-Keeps_of bind body f λ text a _. kept a

  identified-Keeps :
      (c : Context) (f : Uuid → Action (World P) (Response P.Decimal))
      → ((id : Uuid) → Keeps P I (f id))
      → Keeps P I (identified P c f)
  identified-Keeps c f kept w i = elim (Option-cases (P.parse_uuid (get_string c.user_id))) [
    | inl none_given ↦ rw (none_given, identified) i
    | inr (id, given) ↦ rw (given, identified) (kept id w i)
  ]

  module _ (J : Json P.Decimal) where
    when_complete-Keeps :
        (missing : List String) (m : Action (World P) (Response P.Decimal))
        → Keeps P I m
        → Keeps P I (when_complete P J missing m)
    when_complete-Keeps [] m kept = kept
    when_complete-Keeps (x ∷ xs) m kept = λ w i. i

    posted_answer-Keeps :
        (x : Result (List (LedgerEntry P.Decimal)) × World P)
        → I x.1.db
        → I (posted_answer P J x).1.db
    posted_answer-Keeps (ok [], u) i = i
    posted_answer-Keeps (ok (e ∷ es), u) i = i
    posted_answer-Keeps (err c, u) i = i
    posted_answer-Keeps (panic, u) i = i

    module _ (k : KeptByStatements P I) where
      pub handle_post_transaction-Keeps :
          (b : Bool) (c : Context)
          → ((text : String) (req : PostTransactionRequest P.Decimal)
              → J.bind_transaction text ≡ done req
              → k.Allows req)
          → Keeps P I (handle_post_transaction P J b c)
      unfolding handle_post_transaction
      handle_post_transaction-Keeps b c allowed =
          bound_body-Keeps_of J.bind_transaction c.body _ λ text req bound_to w i.
            posted_answer-Keeps _ (k.posts b req (allowed text req bound_to) w i)

      pub handle_create_account-Keeps : (c : Context) → Keeps P I (handle_create_account P J c)
      unfolding handle_create_account
      handle_create_account-Keeps c =
          bound_body-Keeps J.bind_account c.body _
            λ account. identified-Keeps c _ λ id. serve-Keeps _ _ (create_account-Keeps P I k _)

      pub handle_create_record-Keeps :
          (b : Bool) (c : Context) → Keeps P I (handle_create_record P J b c)
      unfolding handle_create_record
      handle_create_record-Keeps b c =
          bound_body-Keeps J.bind_record c.body _
            λ r. identified-Keeps c _ λ id. serve-Keeps _ _ (create_record-Keeps P I k b _)

      pub handle_update_record-Keeps :
          (b : Bool) (c : Context) → Keeps P I (handle_update_record P J b c)
      unfolding handle_update_record
      handle_update_record-Keeps b c =
          bound_body-Keeps J.bind_updates c.body _
            λ m. serve-Keeps _ _ (update_record-Keeps P I k b _ m)

      pub handle_delete_record-Keeps :
          (b : Bool) (c : Context) → Keeps P I (handle_delete_record P J b c)
      unfolding handle_delete_record
      handle_delete_record-Keeps b c = serve-Keeps _ _ (delete_record-Keeps P I k b _)

      pub handle_update_user-Keeps :
          (b : Bool) (c : Context) → Keeps P I (handle_update_user P J b c)
      unfolding handle_update_user
      handle_update_user-Keeps b c =
          bound_body-Keeps J.bind_updates c.body _
            λ m. serve-Keeps _ _ (update_user-Keeps P I k b _ m)

      pub handle_delete_user-Keeps :
          (b : Bool) (c : Context) → Keeps P I (handle_delete_user P J b c)
      unfolding handle_delete_user
      handle_delete_user-Keeps b c = serve-Keeps _ _ (delete_user-Keeps P I k b _)

      pub handle_register-Keeps :
          (s : AuthService) (c : Context) → Keeps P I (handle_register P J s c)
      unfolding handle_register
      handle_register-Keeps s c = bound_body-Keeps J.bind_register c.body _ λ r.
          when_complete-Keeps (missing_fields P J r) _ (
            Keeps-if P I (not (J.is_address r.email)) _ _ (λ w i. i)
              (Keeps-if P I (ltb (byte_length r.password) 8) _ _ (λ w i. i)
                (serve-Keeps _ _ (register-Keeps P I k s _ _ _ _))))

      pub handle_login-Keeps : (s : AuthService) (c : Context) → Keeps P I (handle_login P J s c)
      unfolding handle_login
      handle_login-Keeps s c = bound_body-Keeps J.bind_login c.body _ λ r.
          when_complete-Keeps (missing_credentials P J r) _
            (serve-Keeps _ _ (login-Keeps P I k s _ _ _ _))

      pub handle_refresh-Keeps :
          (s : TokenService) (c : Context) → Keeps P I (handle_refresh P J s c)
      unfolding handle_refresh
      handle_refresh-Keeps s c = bound_body-Keeps J.bind_refresh c.body _ λ r.
          Keeps-if P I (str_eq r.refresh_token "") _ _ (λ w i. i)
            (serve-Keeps _ _ (refresh_tokens-Keeps P I k s _))

      pub handle_logout-Keeps : (c : Context) → Keeps P I (handle_logout P J c)
      unfolding handle_logout
      handle_logout-Keeps c =
          identified-Keeps c _ λ id. serve-Keeps _ _ (revoke_all_user_tokens-Keeps P I k id)
