-- ===== src/Persona.antt =====
-- edge/src/jojo.ts, createJojoReply: when the AI resident answers with a fixed line, and what the
-- model is given otherwise. The regular expressions and the model are parameters.
use focustown_public.Prelude.{
  Bool, true, false, ◌&&◌, Option, none, some, List, [], ◌∷◌, if◌then◌else◌, map, take_last, ◌==◌,
  Text, codes,
}
use focustown_public.Guest.{GuestId, GuestId_eq}
use focustown_public.Store.State.{Line}

-- The three expressions, as tests of a text.
pub record Cues : Type 0 where
  pub identity_question : Text → Bool
  pub wants_plain_chat : Text → Bool
  pub wants_flirting : Text → Bool

abbrev pub identity_answer : Text
identity_answer = codes "對呀，我是小鎮的 AI 居民「你家貓咪會後空翻嗎」，角色設定是成年女生。你可以隨時離開或回首頁等真人。"

abbrev pub plain_answer : Text
plain_answer = codes "好，那就正常聊。今天有什麼想講的？"

pub data Speaker : Type 0 where
  user assistant : Speaker

-- Whether the plain tone is asked for, and the messages behind the rules.
pub record Prompt : Type 0 where
  pub plain_chat : Bool
  pub messages : List (Speaker × Text)

pub data Reply : Type 0 where
  fixed : Text → Reply
  from_model : Prompt → Reply

module _ (cues : Cues) (guest_id : GuestId) where
  -- `lines.at(-1)`
  unfoldable pub latest : List Line → Option Line
  latest [] = none
  latest (l ∷ []) = some l
  latest (l ∷ k ∷ ls) = latest (k ∷ ls)

  unfoldable pub tone_after : Bool → Line → Bool
  tone_after plain l =
      if l.from == guest_id
      then (if cues.wants_plain_chat l.text
          then true
          else if cues.wants_flirting l.text
          then false
          else plain)
      else plain

  -- The tone the guest asked for last.
  unfoldable pub tone : Bool → List Line → Bool
  unfolding tone_after
  tone plain [] = plain
  tone plain (l ∷ ls) = tone (tone_after plain l) ls

  unfoldable pub prompt_of : List Line → Prompt
  unfolding tone
  prompt_of lines = record {
    plain_chat = tone false lines;
    messages =
        map (λ l. (if l.from == guest_id then user else assistant, l.text)) (take_last 16 lines);
  }

  unfoldable pub answer_to_line : List Line → Option Line → Reply
  unfolding prompt_of
  answer_to_line lines none = from_model (prompt_of lines)
  answer_to_line lines (some l) =
      if l.from == guest_id && cues.identity_question l.text
      then fixed identity_answer
      else if l.from == guest_id && cues.wants_plain_chat l.text
      then fixed plain_answer
      else from_model (prompt_of lines)

  unfoldable pub jojo_reply : List Line → Reply
  unfolding answer_to_line latest
  jojo_reply lines = answer_to_line lines (latest lines)
