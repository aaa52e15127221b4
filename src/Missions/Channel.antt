-- ===== src/Missions/Channel.antt =====
-- The private channel of a SAFE action in runtime/c/plant_runtime.c (`plant_safe_channel_open` ..
-- `plant_safe_recv`): one place for a pointer to a text. The texts on the C heap are a store by
-- address; a freed one is `none`, and an operation that reads or frees such an address is a fault,
-- `none`. `malloc` gives addresses that were not used before; whether it succeeds is an argument. The
-- calls on a `NULL` channel, which do nothing, are left out.
pub mod Delivery
use plant_lang.Prelude.{
  ℕ, suc, ◌≡◌, Bool, true, false, not, ◌||◌, List, [], ◌∷◌, ◌++◌, Option, none, some, ltb, leb,
  if◌then◌else◌, length, replicate, get_or, set, Text,
}

abbrev pub Store : Type 0
Store = List (Option Text)

abbrev pub load : Store → ℕ → Option Text
load st p = get_or st p none

-- `free`
unfoldable pub release : ℕ → Store → Option Store
release p st = elim (load st p) [ none ↦ none | some t ↦ some (set st p none) ]

pub record Channel : Type 0 where
  pub buf : Option ℕ
  pub size : ℕ
  pub copies : ℕ
  pub transfers : ℕ
  pub threshold : ℕ

unfoldable pub channel_open : Bool → ℕ → Option Channel
channel_open true threshold =
    some (record { buf = none; size = 0; copies = 0; transfers = 0; threshold = threshold })
channel_open false threshold = none

-- `if (ch->buf) free(ch->buf);`
unfoldable pub free_buf : Option ℕ → Store → Option Store
unfolding release
free_buf none st = some st
free_buf (some b) st = release b st

-- the fields behind a copy, and behind a transfer
abbrev pub cloned : ℕ → ℕ → Channel → Channel
cloned q n ch = record ch { buf = some q; size = n; copies = suc ch.copies }

abbrev pub adopted : ℕ → ℕ → Channel → Channel
adopted p n ch = record ch { buf = some p; size = n; transfers = suc ch.transfers }

abbrev pub then_with : Channel → Option Store → Option (Channel × Store)
then_with ch none = none
then_with ch (some st) = some (ch, st)

-- the payload `p`, which reads as `t`
unfoldable pub send_text : Bool → ℕ → Text → Channel → Store → Option (Channel × Store)
unfolding free_buf
send_text memory p t ch st =
    if leb (length t) ch.threshold
    then if memory
      then then_with (cloned (length st) (length t) ch) (free_buf ch.buf (st ++ some t ∷ []))
      else some (ch, st)
    else then_with (adopted p (length t) ch) (free_buf ch.buf st)

-- a `NULL` payload is `none`
unfoldable pub safe_send : Bool → Option ℕ → Channel → Store → Option (Channel × Store)
unfolding send_text
safe_send memory none ch st = some (ch, st)
safe_send memory (some p) ch st = elim (load st p) [
  | none ↦ none
  | some t ↦ send_text memory p t ch st
]

unfoldable pub safe_send_big : Bool → ℕ → Channel → Store → Option (Channel × Store)
unfolding free_buf
safe_send_big memory n ch st =
    if ltb n 1 || not memory
    then some (ch, st)
    else then_with (adopted (length st) n ch) (free_buf ch.buf (st ++ some (replicate n b'x') ∷ []))

-- the pointer that is received; `none` is the constant ""
unfoldable pub safe_recv : Channel → Option ℕ × Channel
safe_recv ch = elim ch.buf [
  | none ↦ (none, ch)
  | some p ↦ (some p, record ch { buf = none; size = 0 })
]

-- The calls on a channel. A payload is the address of a text.
pub data ChannelCall : Type 0 where
  send : Bool → Option ℕ → ChannelCall
  send_big : Bool → ℕ → ChannelCall
  recv : ChannelCall

-- what the receiver reads
abbrev pub read : Store → Option ℕ → Option Text
read st none = some []
read st (some p) = load st p

abbrev pub behind : Option Text → Option (List Text) → Option (List Text)
behind none ts = none
behind (some t) none = none
behind (some t) (some ts) = some (t ∷ ts)

-- the texts that the receiving calls of a run read
unfoldable pub channel_run : List ChannelCall → Channel → Store → Option (List Text)
unfolding safe_send safe_send_big safe_recv
channel_run [] ch st = some []
channel_run (send m p ∷ cs) ch st = elim (safe_send m p ch st) [
  | none ↦ none
  | some (ch', st') ↦ channel_run cs ch' st'
]
channel_run (send_big m n ∷ cs) ch st = elim (safe_send_big m n ch st) [
  | none ↦ none
  | some (ch', st') ↦ channel_run cs ch' st'
]
channel_run (recv ∷ cs) ch st =
    let (out, ch') = safe_recv ch in behind (read st out) (channel_run cs ch' st)
