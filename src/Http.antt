-- ===== src/Http.antt =====
-- rust-test-node/src/main.rs: the handler of `POST /publish` in `start_http_server`. Routing, JSON and
-- the socket are warp's. The two channels are tokio's: sending a command may fail, and the answer
-- may never come.
pub mod Channel
pub mod Pending
pub mod Invariant
pub mod Progress
pub mod Drain
pub mod Ends
pub mod Atomic
pub mod Refines
use dst_libp2p_test_node.Prelude.{
  ℕ, ◌^◌, ◌<◌, ◌≡◌, refl, ap, ◌∙◌, ◌⊎◌, Option, none, some, ◌++◌, inl, inr,
}
use dst_libp2p_test_node.Prelude.Int.{ℤ}
use dst_libp2p_test_node.Text.{Text, codes}
use dst_libp2p_test_node.Outcome.{Run, done, panic, Result, ok, err}
use dst_libp2p_test_node.Env.{PeerConfig}
use dst_libp2p_test_node.ByteOrder.{ByteOrder}
use dst_libp2p_test_node.Clock.{Instant}
use dst_libp2p_test_node.Gossipsub.{Gossipsub}
use dst_libp2p_test_node.Publish.{PublishCommand, publish_new_message}
use dst_libp2p_test_node.Publish.Fragments.{fragments}
use dst_libp2p_test_node.Publish.Loop.{failure, Refuses}
use dst_libp2p_test_node.Publish.Total.{IsServed, base_of, publish_new_message-answer}

pub record PublishRequest : Type 0 where
  pub topic : Text
  pub msg_size : ℕ
  pub version : ℤ

pub record PublishResponse : Type 0 where
  pub status : Text
  pub message : Text

pub data StatusCode : Type 0 where
  ok_200 internal_server_error_500 : StatusCode

pub record Reply : Type 0 where
  pub code : StatusCode
  pub body : PublishResponse

abbrev error_reply : Text → Reply
error_reply text = record {
  code = internal_server_error_500;
  body = record { status = codes "error"; message = text };
}

-- The command that the handler makes of a request.
abbrev pub command : PeerConfig → PublishRequest → PublishCommand
command config req = record { topic = req.topic; msg_size = req.msg_size; chunks = config.chunks }

-- `match response_rx.await`
pub answer_reply : Option (Result Text) → Reply
answer_reply (some (ok msg)) = record {
  code = ok_200;
  body = record { status = codes "success"; message = msg };
}
answer_reply (some (err e)) = error_reply e
answer_reply none = error_reply (codes "Channel closed")

-- `send` is `tx.lock().await.send(cmd).await`, with the text of its error; `response` is what comes of
-- the command on `response_rx`, `none` if its sender is dropped.
pub publish_handler :
    (PublishCommand → Option Text)
    → (PublishCommand → Option (Result Text))
    → PeerConfig
    → PublishRequest
    → Reply
publish_handler send response config req = elim (send (command config req)) [
  | some e ↦ error_reply (codes "Failed to send to swarm: " ++ e)
  | none ↦ answer_reply (response (command config req))
]

-- What the main loop's `publish_new_message` sends back: a panic drops the sender.
abbrev pub response_of {ℓ} : {S : Type ℓ} → Run (S × Result Text) → Option (Result Text)
response_of (done (s, r)) = some r
response_of panic = none

module _ (g : Gossipsub) (b : ByteOrder) (now : Instant) (shown : Text) (s : g.Swarm) where
  -- A request whose command is taken from the channel by the main loop at once.
  unfoldable pub serve : PeerConfig → PublishRequest → Reply
  unfolding publish_handler answer_reply
  serve config req =
      publish_handler (λ cmd. none) (λ cmd. response_of (publish_new_message g b cmd now shown s))
        config req

  serve_lem :
      (config : PeerConfig) (req : PublishRequest) (s' : g.Swarm) (r : Result Text)
      → publish_new_message g b (command config req) now shown s ≡ done (s', r)
      → serve config req ≡ answer_reply (some r)
  unfolding serve
  serve_lem config req s' r run = rw run refl

  answer_reply_ok :
      (text : Text)
      → answer_reply (some (ok text))
        ≡ record { code = ok_200; body = record { status = codes "success"; message = text } }
  unfolding answer_reply
  answer_reply_ok text = refl

  answer_reply_err : (text : Text) → answer_reply (some (err text)) ≡ error_reply text
  unfolding answer_reply
  answer_reply_err text = refl

  -- A served request is answered by 200 exactly where all fragments of the message went out, and by
  -- 500 with gossipsub's error exactly where gossipsub answered fragment `j` with it, and only those
  -- before it went out. There are fewer than 2^31 chunks.
  pub serve-code :
      (config : PeerConfig) (req : PublishRequest)
      → IsServed (command config req)
      → config.chunks < 2 ^ 31
      → (s' : g.Swarm) × (r : Result Text) × (publish_new_message g b
            (command config req)
            now
            shown
            s
          ≡ done (s', r))
        × (((serve config req).code ≡ ok_200)
              × ((serve config req).body.status ≡ codes "success")
              × (g.sent s'
                  ≡ g.sent s
                    ++ fragments req.topic (base_of b (command config req) now) 0 config.chunks)
            ⊎ ((j : ℕ) × (e : Text) × (j < config.chunks)
                × Refuses g req.topic (base_of b (command config req) now) 0 j s e
                × (serve config req ≡ record {
                  code = internal_server_error_500;
                  body = record { status = codes "error"; message = failure e };
                })
                × (g.sent s'
                    ≡ g.sent s ++ fragments req.topic (base_of b (command config req) now) 0 j)))
  serve-code config req served small =
      let (s', r, run, how) =
        publish_new_message-answer g b (command config req) now shown s served small in
      let reply = serve_lem config req s' r run in
      (
        s',
        r,
        run,
        elim how [
          | inl (good, all) ↦
              let page = reply ∙ ap (λ x. answer_reply (some x)) good ∙ answer_reply_ok _ in
              inl (ap (λ (x : Reply). x.code) page, ap (λ (x : Reply). x.body.status) page, all)
          | inr (j, e, before, why, bad, part) ↦ inr (
            j,
            e,
            before,
            why,
            reply ∙ ap (λ x. answer_reply (some x)) bad ∙ answer_reply_err (failure e),
            part,
          )
        ],
      )
