-- ===== src/Notify/Mattermost.antt =====
-- internal/notify/notify.go: the sender of Mattermost. JSON and url.PathEscape are parameters: a
-- payload is the list of its fields, in their order and without those that omitempty leaves out.
use malert.Domain.{firing, resolved, state_eq, Notification}
use malert.Permanent.{GoError, plain, wrapped}
use malert.Base.{
  Assoc, insert, Text, codes, text_eq, trim_space, is_empty, Unicode, ◌⊎◌, inl, inr, Bool, true,
  false, ◌&&◌, none, [], ◌∷◌, ◌++◌, if◌then◌else◌,
}
use malert.Notify.Http.{
  HttpRequest, HttpClient, Call, then_call, execute_request, set_header, new_request,
  build_json_request, trim_right_slash,
}
use malert.Notify.Retry.{SendResult, Reply, delivered, refused}
use malert.Config.Channels.{mode_active_only, or_else, normalize_notify_route_mode}
use malert.Config.Notify.{MattermostConfig}
use malert.Config.ValidateNotify.{is_blank}
use malert.Engine.Active.{keeps}

pub record MattermostWorld (S : Type 0) : Type 0 where
  pub http : HttpClient S
  pub marshal : Assoc Text → GoError ⊎ Text
  pub decode_id : Text → GoError ⊎ Text
  pub path_escape : Text → Text

abbrev pub nothing_sent : SendResult
nothing_sent = record { message_id = 0; external_ref = [] }

abbrev pub post_ref : Text → SendResult
post_ref id = record { message_id = 0; external_ref = id }

module _ (path_escape : Text → Text) (cfg : MattermostConfig) where
  -- `postsEndpoint`.
  unfoldable pub posts_endpoint : Text → Text
  unfolding trim_right_slash
  posts_endpoint post_id =
      let base = trim_right_slash (trim_space cfg.base_url) ++ codes "/api/v4/posts" in
      if is_blank post_id then base else base ++ (b'/' ∷ path_escape post_id)

module _ {S : Type 0} (w : MattermostWorld S) (cfg : MattermostConfig) where
  -- `applyAuth`.
  abbrev pub apply_auth : HttpRequest → HttpRequest
  apply_auth request =
      set_header w.http (codes "Authorization") (codes "Bearer " ++ trim_space cfg.bot_token)
        request

  -- The decoded answer to a new post.
  unfoldable pub created_id : S → Text → Call S Text
  created_id s body = elim (w.decode_id body) [
    | inl e ↦ (s, inl (wrapped (codes "decode mattermost response: ") e))
    | inr id ↦
        if is_blank id
        then (s, inl (plain (codes "mattermost response missing id")))
        else (s, inr id)
  ]

  -- `createPost`, which gives the ID of the post.
  unfoldable pub create_post : S → Assoc Text → Call S Text
  unfolding build_json_request posts_endpoint execute_request created_id then_call insert
  create_post s payload =
      elim (build_json_request w.http (codes "POST") (posts_endpoint w.path_escape cfg [])
        (w.marshal payload) (codes "mattermost")) [
          | inl e ↦ (s, inl e)
          | inr request ↦
              then_call (execute_request w.http s (apply_auth request) (codes "mattermost") [] true)
                created_id
        ]

  -- `updatePost`.
  unfoldable pub update_post : S → Text → Text → Call S Text
  unfolding build_json_request posts_endpoint execute_request insert
  update_post s post_id message =
      elim (build_json_request w.http (codes "PUT") (posts_endpoint w.path_escape cfg post_id)
        (w.marshal ((codes "id", post_id) ∷ (codes "message", message) ∷ []))
        (codes "mattermost update")) [
          | inl e ↦ (s, inl e)
          | inr request ↦
              execute_request w.http s (apply_auth request) (codes "mattermost") [] false
        ]

  -- `deletePost`.
  unfoldable pub delete_post : S → Text → Call S Text
  unfolding new_request posts_endpoint execute_request insert
  delete_post s post_id =
      elim (new_request w.http (codes "DELETE") (posts_endpoint w.path_escape cfg post_id) none
        (codes "build mattermost delete request: ")) [
          | inl e ↦ (s, inl e)
          | inr request ↦
              execute_request w.http s (apply_auth request) (codes "mattermost") [] false
        ]

  -- A reply with a result that does not depend on the answer, or with the ID of the new post.
  abbrev pub replied : SendResult → Call S Text → S × Reply
  replied result (t, inl e) = (t, refused e)
  replied result (t, inr body) = (t, delivered result)

  abbrev pub replied_id : Bool → Call S Text → S × Reply
  replied_id keeps (t, inl e) = (t, refused e)
  replied_id keeps (t, inr id) = (t, delivered (if keeps then post_ref id else nothing_sent))

  -- `sendHistory`.
  unfoldable pub send_history : S → Notification → S × Reply
  unfolding create_post
  send_history s n =
      let root = trim_space n.external_ref in
      let payload : Assoc Text =
        (codes "channel_id", trim_space cfg.channel_id)
        ∷ (codes "message", n.message)
        ∷ (if is_empty root then [] else (codes "root_id", root) ∷ []) in
      if state_eq n.state resolved && is_empty root
      then (s, refused (plain (codes "mattermost resolved requires external_ref")))
      else replied_id (state_eq n.state firing) (create_post s payload)

  -- `sendActiveOnly`.
  unfoldable pub send_active_only : S → Notification → S × Reply
  unfolding create_post update_post delete_post
  send_active_only s n =
      let post_id = trim_space n.external_ref in
      let channel = or_else (trim_space cfg.active_channel_id) (trim_space cfg.channel_id) in
      if state_eq n.state resolved
      then (if is_empty post_id
          then (s, refused (plain (codes "mattermost active resolved requires external_ref")))
          else replied nothing_sent (delete_post s post_id))
      else if is_empty post_id
      then replied_id true
          (create_post s ((codes "channel_id", channel) ∷ (codes "message", n.message) ∷ []))
      else replied (post_ref post_id) (update_post s post_id n.message)

  -- `Send`.
  unfoldable pub send_mattermost : Unicode → S → Notification → S × Reply
  unfolding send_history send_active_only normalize_notify_route_mode
  send_mattermost u s n =
      if text_eq (normalize_notify_route_mode u n.route_mode) mode_active_only
      then send_active_only s n
      else send_history s n
