-- ===== src/Api/Events/Notify.antt =====
-- api/events.py: `_handle_event`, on the events that dns_server/resolver.py publishes. The JSON of a
-- message is read back as it was written; the statements succeed, so no send raises.
use scamlens.Base.{
  ℕ, Bool, ◌==◌, ◌&&◌, Text, List, [], ◌∷◌, ◌++◌, Option, none, some, codes, decimal, if◌then◌else◌,
}
use scamlens.Api.Auth.{Account, fetch_by_id}
use scamlens.Api.Events.{Listener, fanout}
use scamlens.Api.Me.{Link, is_accepted}
use scamlens.Api.Push.{Subscriptions, PushLib, Message, send_to_user}
use scamlens.Dns.Resolver.{label_text}
use scamlens.Dns.Resolver.Tasks.{BlockEvent}

-- SELECT guardian_id FROM guardian_links WHERE ward_id = $1 AND status = 'accepted'
unfoldable pub guardians_of : ℕ → List Link → List ℕ
guardians_of ward [] = []
guardians_of ward (l ∷ ls) =
    let rest = guardians_of ward ls in
    if ward == l.ward_id && is_accepted l.status then l.guardian_id ∷ rest else rest

-- The queues of the open streams, and the subscriptions to push messages.
pub record Audience : Type 0 where
  pub listeners : List (Listener BlockEvent)
  pub subs : Subscriptions

abbrev pub email_of : ℕ → Option Account → Text
email_of user_id none = codes "user#" ++ decimal user_id
email_of user_id (some u) = u.email

unfoldable pub message_of : List Account → BlockEvent → Message
message_of accounts event = record {
  title = codes "ScamLens blocked a scam";
  body =
      email_of event.user_id (fetch_by_id event.user_id accounts)
      ++ (codes " tried to open " ++ event.domain);
  url = some (codes "/account");
  tag = some (codes "block-" ++ label_text event.verdict);
}

module _ (lib : PushLib) where
  -- The loop over the targets.
  unfoldable pub push_all : Bool → Message → List ℕ → Subscriptions → Subscriptions
  push_all available m [] s = s
  push_all available m (uid ∷ uids) s =
      push_all available m uids (send_to_user lib available uid m s).1

  unfoldable pub handle_event : Bool → List Account → List Link → BlockEvent → Audience → Audience
  unfolding guardians_of message_of push_all
  handle_event available accounts links event a =
      let targets = event.user_id ∷ guardians_of event.user_id links in
      record {
        listeners = fanout BlockEvent targets event a.listeners;
        subs = push_all available (message_of accounts event) targets a.subs;
      }
