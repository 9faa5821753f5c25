-- ===== src/Topics.antt =====
-- edge/src/topics.ts: what the home page shows. The rows are those of listTopics, in its order; a
-- day is the number of days since the epoch, in Taiwan, in place of its text.
use focustown_public.Prelude.{
  ℕ, ◌*◌, ◌%◌, ◌≡◌, ◌≢◌, Bool, true, false, not, Option, List, [], ◌∷◌, ◌++◌, arith, leb,
  if◌then◌else◌, or_default, length, take, drop, select, any, All, Text, codes, text_beq,
  text_beq_iff, inl, inr, Bool-cases,
}

abbrev pub min_words : ℕ
min_words = 6

abbrev pub idea_questions : List Text
idea_questions =
    codes "下班後做的第一件事是什麼？"
    ∷ codes "最近一次笑出來是因為什麼？"
    ∷ codes "如果明天放假一天，你想怎麼過？"
    ∷ codes "最近有一首歌一直重播嗎？"
    ∷ codes "你的宵夜首選是什麼？"
    ∷ codes "最近有被陌生人溫暖到嗎？"
    ∷ codes "小時候最想成為什麼？"
    ∷ codes "有什麼小事會讓你心情變好？"
    ∷ codes "你是早起派還是晚睡派？"
    ∷ codes "最近在追哪部劇或節目？"
    ∷ codes "一個人的時候最喜歡做什麼？"
    ∷ codes "最想再去一次的地方是哪裡？"
    ∷ codes "有沒有一直想學但還沒開始的事？"
    ∷ codes "今天吃到最好吃的是什麼？"
    ∷ codes "用一種天氣形容今天的心情？"
    ∷ codes "你有固定的放鬆小儀式嗎？"
    ∷ codes "最近一件讓你驕傲的小事？"
    ∷ codes "週末通常怎麼充電？"
    ∷ codes "有沒有一部看了很多次的電影？"
    ∷ codes "你比較喜歡貓還是狗？"
    ∷ codes "最近有什麼想吐槽的事嗎？"
    ∷ codes "你相信第一印象嗎？"
    ∷ codes "如果能瞬間學會一個技能，你選什麼？"
    ∷ codes "什麼聲音會讓你覺得安心？"
    ∷ codes "最近一次熬夜是為了什麼？"
    ∷ codes "你有收藏什麼小東西嗎？"
    ∷ codes "最喜歡哪一個季節？"
    ∷ codes "有沒有一個很想念的味道？"
    ∷ codes "通勤的時候都在做什麼？"
    ∷ codes "你會在意已讀不回嗎？"
    ∷ codes "最近有什麼小小的目標？"
    ∷ codes "理想的週末早餐長什麼樣子？"
    ∷ codes "有沒有一句話一直記在心裡？"
    ∷ codes "你是計畫派還是隨興派？"
    ∷ codes "最近才開始喜歡上的東西是什麼？"
    ∷ codes "想跟過去的自己說什麼？"
    ∷ codes "便利商店必買的是什麼？"
    ∷ codes "睡不著的時候你都做什麼？"
    ∷ codes "有沒有一個讓你很自在的地方？"
    ∷ codes "你喜歡熱鬧還是安靜？"
    ∷ codes "最近買過最值得的東西是什麼？"
    ∷ codes "有什麼小習慣是別人不知道的？"
    ∷ codes "你會一個人去吃飯嗎？"
    ∷ codes "最近一次被誇獎是什麼時候？"
    ∷ codes "如果可以搬去任何城市住一年？"
    ∷ codes "最近在學什麼新東西嗎？"
    ∷ codes "有沒有很推薦的一家小店？"
    ∷ codes "你怎麼知道自己該休息了？"
    ∷ codes "最喜歡的一句台詞是什麼？"
    ∷ codes "心情不好的時候會想吃什麼？"
    ∷ codes "有沒有一直想去的展覽或演唱會？"
    ∷ codes "你覺得自己的社交電量平常多高？"
    ∷ codes "最近有什麼值得慶祝的小事？"
    ∷ codes "小時候最喜歡哪部卡通？"
    ∷ codes "如果一整天不用回訊息，你想做什麼？"
    ∷ codes "一天之中最喜歡哪個時段？"
    ∷ codes "最近有沒有什麼新發現？"
    ∷ codes "最近一次覺得「還好有做」的事？"
    ∷ codes "你會怎麼安慰沒電的朋友？"
    ∷ codes "今天有沒有一個小確幸？"
    ∷ []

pub data TopicKind : Type 0 where
  trend pick idea : TopicKind

pub data TopicSource : Type 0 where
  manual trends : TopicSource

pub record TopicRow : Type 0 where
  pub word : Text
  pub prompt : Option Text
  pub source : TopicSource
  pub is_hidden : Bool

pub record PublicTopic : Type 0 where
  pub word : Text
  pub kind : TopicKind

-- The day's first question, and the list from there around.
unfoldable pub ideas_for : ℕ → List Text
ideas_for day =
    let start = (day * 7) % length idea_questions in
    drop start idea_questions ++ take start idea_questions

-- `add`: the words seen are those of `out`.
unfoldable pub add_topic : Text → TopicKind → List PublicTopic → List PublicTopic
add_topic word kind out =
    if any (λ t. text_beq t.word word) out
    then out
    else out ++ record { word = word; kind = kind } ∷ []

abbrev is_manual : TopicSource → Bool
is_manual manual = true
is_manual trends = false

unfoldable pub add_picks : List TopicRow → List PublicTopic → List PublicTopic
unfolding add_topic
add_picks [] out = out
add_picks (r ∷ rs) out = add_picks rs (add_topic r.word pick out)

unfoldable pub add_trends : List TopicRow → List PublicTopic → List PublicTopic
unfolding add_topic
add_trends [] out = out
add_trends (r ∷ rs) out = add_trends rs (add_topic (or_default r.prompt r.word) trend out)

unfoldable pub add_ideas : List Text → List PublicTopic → List PublicTopic
unfolding add_topic
add_ideas [] out = out
add_ideas (word ∷ rest) out =
    let more = add_ideas rest (add_topic word idea out) in
    if leb min_words (length out) then out else more

unfoldable pub public_topics : List TopicRow → ℕ → List PublicTopic
unfolding add_picks add_trends add_ideas ideas_for
public_topics listed day =
    let rows = select (λ r. not r.is_hidden) listed in
    add_ideas (ideas_for day) (
      add_trends (select (λ r. not (is_manual r.source)) rows)
        (add_picks (select (λ r. is_manual r.source) rows) []))

-- No word is shown twice.
abbrev pub AreDistinct : List PublicTopic → Type 0
AreDistinct [] = Unit {0}
AreDistinct (t ∷ ts) = All (λ u. u.word ≢ t.word) ts × AreDistinct ts

append-All :
    (word : Text) (kind : TopicKind) (t : PublicTopic) (ts : List PublicTopic)
    → word ≢ t.word
    → All (λ u. u.word ≢ t.word) ts
    → All (λ u. u.word ≢ t.word) (ts ++ record { word = word; kind = kind } ∷ [])
append-All word kind t [] ne h = (ne, tt)
append-All word kind t (u ∷ us) ne h = (h.0, append-All word kind t us ne h.1)

append-AreDistinct :
    (word : Text) (kind : TopicKind) (out : List PublicTopic)
    → any (λ t. text_beq t.word word) out ≡ false
    → AreDistinct out
    → AreDistinct (out ++ record { word = word; kind = kind } ∷ [])
append-AreDistinct word kind [] h d = (tt, tt)
append-AreDistinct word kind (t ∷ ts) h d = (
  append-All word kind t ts (λ e. ground (arith, text_beq_iff t.word word, e)) d.0,
  append-AreDistinct word kind ts (ground arith) d.1,
)

add_topic-AreDistinct :
    (word : Text) (kind : TopicKind) (out : List PublicTopic)
    → AreDistinct out
    → AreDistinct (add_topic word kind out)
unfolding add_topic
add_topic-AreDistinct word kind out d = elim (Bool-cases (any (λ t. text_beq t.word word) out)) [
  | inl e ↦ rw e d
  | inr e ↦ rw e (append-AreDistinct word kind out e d)
]

add_picks-AreDistinct :
    (rs : List TopicRow) (out : List PublicTopic) → AreDistinct out → AreDistinct (add_picks rs out)
unfolding add_picks
add_picks-AreDistinct [] out d = d
add_picks-AreDistinct (r ∷ rs) out d =
    add_picks-AreDistinct rs (add_topic r.word pick out) (add_topic-AreDistinct r.word pick out d)

add_trends-AreDistinct :
    (rs : List TopicRow) (out : List PublicTopic)
    → AreDistinct out
    → AreDistinct (add_trends rs out)
unfolding add_trends
add_trends-AreDistinct [] out d = d
add_trends-AreDistinct (r ∷ rs) out d =
    add_trends-AreDistinct rs (add_topic (or_default r.prompt r.word) trend out)
      (add_topic-AreDistinct (or_default r.prompt r.word) trend out d)

add_ideas-AreDistinct :
    (ws : List Text) (out : List PublicTopic) → AreDistinct out → AreDistinct (add_ideas ws out)
unfolding add_ideas
add_ideas-AreDistinct [] out d = d
add_ideas-AreDistinct (w ∷ ws) out d = elim (Bool-cases (leb min_words (length out))) [
  | inl e ↦ rw e d
  | inr e ↦
      rw e (add_ideas-AreDistinct ws (add_topic w idea out) (add_topic-AreDistinct w idea out d))
]

-- Whatever rows are listed, on whatever day, the home page shows no word twice.
pub public_topics-AreDistinct :
    (listed : List TopicRow) (day : ℕ) → AreDistinct (public_topics listed day)
unfolding public_topics
public_topics-AreDistinct listed day =
    let rows = select (λ r. not r.is_hidden) listed in
    let picks = add_picks (select (λ r. is_manual r.source) rows) [] in
    let from_trends = select (λ r. not (is_manual r.source)) rows in
    add_ideas-AreDistinct (ideas_for day) (add_trends from_trends picks) (
      add_trends-AreDistinct from_trends picks
        (add_picks-AreDistinct (select (λ r. is_manual r.source) rows) [] tt))
