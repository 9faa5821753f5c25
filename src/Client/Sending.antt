-- ===== src/Client/Sending.antt =====
-- sessionStore.ts, sendMessage: which drafts go out.
use focustown_public.Rules.Cleaning.{trim}
use focustown_public.Prelude.{
  ℕ, ◌≡◌, refl, true, false, some, ◌∷◌, arith, Text, inl, inr, Text_eq, eqb, ◌↔◌, length, ◌<◌, ◌≤◌,
  Option-cases, length-take,
}
use focustown_public.Client.State.{
  Client, is_chat, Transport, remaining_seconds, is_connected, lbt_message_max, send_intent,
}
use focustown_public.Client.Handle.{is_blank}
use focustown_public.Client.Clock.{ask}
use focustown_public.Client.Actions.{try_send, draft, is_live, is_ai}

-- There is something to send, in a chat whose time was not up at the last tick, over an open connection if it is a
-- live one, and no reply of the AI is awaited.
abbrev pub IsSendable : Text → Client → Type 0
IsSendable raw s =
    (is_blank (draft raw) ≡ false)
    × (is_chat s.view ≡ true)
    × ((end : ℕ) → s.ends_at ≡ some end → s.now < end)
    × (is_live s.mode ≡ true → is_connected s.connection ≡ true)
    × (is_ai s.partner ≡ true → s.jojo_reply_pending ≡ false)

draft-length : (raw : Text) → length (draft raw) ≤ lbt_message_max
unfolding draft
draft-length raw = omega (arith, length-take lbt_message_max (trim raw))

time_left :
    (s : Client)
    → eqb (remaining_seconds s) 0 ≡ false ↔ ((end : ℕ) → s.ends_at ≡ some end → s.now < end)
unfolding remaining_seconds
time_left s = elim (Option-cases s.ends_at) [
  | inl n ↦ rw n (λ h end e. cc, λ h. refl)
  | inr p ↦
      let (end, e) = p in rw e (λ h x q. ground (arith, q, h), λ h. ground (arith, h end refl))
]

module _ (now : ℕ) (raw : Text) (s : Client) where
  IsReady : Type 0
  IsReady =
      (is_blank (draft raw) ≡ false)
      × (is_chat s.view ≡ true)
      × (eqb (remaining_seconds s) 0 ≡ false)
      × (is_live s.mode ≡ true → is_connected s.connection ≡ true)
      × (is_ai s.partner ≡ true → s.jojo_reply_pending ≡ false)

  try_send-IsReady : (try_send now raw s).0 ≡ true → IsReady
  unfolding try_send IsReady
  try_send-IsReady h = ground (arith, h)

  IsReady-try_send : IsReady → (try_send now raw s).0 ≡ true
  unfolding try_send IsReady
  IsReady-try_send h = ground (arith, h)

  try_send-unsent : (try_send now raw s).0 ≡ false → (try_send now raw s).1 ≡ s
  unfolding try_send
  try_send-unsent h = ground (arith, h)

  try_send-asked :
      (t : Transport)
      → s.transport ≡ some t
      → (try_send now raw s).0 ≡ true
      → (try_send now raw s).1.asked ≡ (now, send_intent (draft raw)) ∷ s.asked
  unfolding try_send ask
  try_send-asked t e h = ground (arith, e, h)

  IsReady-IsSendable : IsReady ↔ IsSendable raw s
  unfolding IsReady
  IsReady-IsSendable = (
    λ (e, c, r, o, p). (e, c, (time_left s).0 r, o, p),
    λ (e, c, r, o, p). (e, c, (time_left s).1 r, o, p),
  )

-- With a transport attached, sendMessage returns true exactly if there is a draft, in a chat whose
-- end, if it is known, is after the last tick of the clock, over an open connection where it is
-- live, and, if the partner is the AI, no reply is awaited. Then the trimmed draft, cut to 500
-- characters, is what the transport is asked to send; otherwise nothing changes.
pub try_send-Sends :
    (now : ℕ) (raw : Text) (s : Client) (t : Transport)
    → s.transport ≡ some t
    → (((try_send now raw s).0 ≡ true) ↔ IsSendable raw s)
      × (length (draft raw) ≤ lbt_message_max)
      × ((try_send now raw s).0 ≡ true
          → (try_send now raw s).1.asked ≡ (now, send_intent (draft raw)) ∷ s.asked)
      × ((try_send now raw s).0 ≡ false → (try_send now raw s).1 ≡ s)
try_send-Sends now raw s t e = (
  (
    λ h. (IsReady-IsSendable now raw s).0 (try_send-IsReady now raw s h),
    λ h. IsReady-try_send now raw s ((IsReady-IsSendable now raw s).1 h),
  ),
  draft-length raw,
  try_send-asked now raw s t e,
  try_send-unsent now raw s,
)
