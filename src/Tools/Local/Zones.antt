-- ===== src/Tools/Local/Zones.antt =====
-- agent_tools.py, `_current_time` and `_unit_converter`: time zones and units out of the tables.
use ai_chat_bot_v.Base.{◌≡◌, refl, ap, ◌∙◌, Option, Bool, none, some, ◌++◌, any}
use ai_chat_bot_v.Base.Int.{ℤ, pos}
use ai_chat_bot_v.Base.Text.{Text, codes}
use ai_chat_bot_v.Tools.Local.{
  text_lookup, Calendar, tz_offsets, safe_format, labelled, current_time, conversions, get_category,
  same_category, unknown,
}

abbrev offset_or : Option ℤ → ℤ
offset_or none = pos 0
offset_or (some n) = n

-- The time of a zone that the table lacks is that of UTC, under the name of the zone all the same.
pub current_time-unlisted :
    (calendar : Calendar) (name format s : Text) (now : calendar.Moment)
    → calendar.shift (pos 0) now ≡ now
    → text_lookup (calendar.upper name) tz_offsets ≡ none
    → calendar.strftime (safe_format calendar format) now ≡ some s
    → current_time calendar name format now ≡ s ++ codes " " ++ name
unfolding current_time
current_time-unlisted calendar name format s now h k e =
    let F = safe_format calendar format in
    ap (λ o. labelled calendar (calendar.strftime F (calendar.shift (offset_or o) now)) name now) k
    ∙ ap (λ m. labelled calendar (calendar.strftime F m) name now) h
    ∙ ap (λ o. labelled calendar o name now) e

-- Every unit that can be converted has a category, so that units are never taken for convertible
-- because neither has one.
pub conversions-have-category :
    any (λ e. same_category (get_category (codes e.0)) unknown) conversions ≡ Bool.false
unfolding get_category
conversions-have-category = refl
