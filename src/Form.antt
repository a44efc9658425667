-- ===== src/Form.antt =====
-- Form.hxx and Form.cxx: the builder of URLs and of POST bodies. `curl_escape` of libcurl is a
-- parameter; `none` is its null pointer, and then nothing is appended.
use mpdscribble.Base.{
  ℕ, [], ◌∷◌, ◌++◌, Option, none, some, Bytes, is_some, is_empty, codes, if◌then◌else◌,
}
use mpdscribble.Text.Decimal.{decimal}
use mpdscribble.Text.Strip.{split}

pub data Separator : Type 0 where
  no_separator question_mark ampersand : Separator

pub record FormDataBuilder : Type 0 where
  pub s : Bytes
  pub separator : Separator

-- FormDataBuilder()
abbrev pub empty_form : FormDataBuilder
empty_form = record { s = []; separator = no_separator }

-- FormDataBuilder(S &&)
unfoldable pub form_from_url : Bytes → FormDataBuilder
unfolding split
form_from_url url = record {
  s = url;
  separator =
      if is_empty url
      then no_separator
      else if is_some (split url b'?')
      then ampersand
      else question_mark;
}

abbrev separator_text : Separator → Bytes
separator_text no_separator = []
separator_text question_mark = b'?' ∷ []
separator_text ampersand = b'&' ∷ []

unfoldable pub append_separator : FormDataBuilder → FormDataBuilder
append_separator f = record { s = f.s ++ separator_text f.separator; separator = ampersand }

abbrev pub append_verbatim : FormDataBuilder → Bytes → FormDataBuilder
append_verbatim f value = record f { s = f.s ++ value }

-- AppendVerbatim(unsigned)
unfoldable pub append_verbatim_number : FormDataBuilder → ℕ → FormDataBuilder
append_verbatim_number f n = append_verbatim f (decimal n)

-- the part of AppendIndexed() before the value
unfoldable pub append_index : FormDataBuilder → Bytes → ℕ → FormDataBuilder
unfolding append_separator append_verbatim_number
append_index f key idx =
    append_verbatim
      (append_verbatim
        (append_verbatim_number
          (append_verbatim (append_verbatim (append_separator f) key) (codes "[")) idx)
        (codes "]"))
      (codes "=")

-- AppendIndexed() with a number for its value
unfoldable pub append_indexed_number : FormDataBuilder → Bytes → ℕ → ℕ → FormDataBuilder
unfolding append_index append_verbatim_number
append_indexed_number f key idx value = append_verbatim_number (append_index f key idx) value

-- Append() with a number for its value
unfoldable pub append_number : FormDataBuilder → Bytes → ℕ → FormDataBuilder
unfolding append_separator append_verbatim_number
append_number f key value =
    append_verbatim_number (append_verbatim (append_verbatim (append_separator f) key) (codes "="))
      value

module _ (curl_escape : Bytes → Option Bytes) where
  -- AppendEscape(std::string_view)
  unfoldable pub append_escape : FormDataBuilder → Bytes → FormDataBuilder
  append_escape f value = elim (curl_escape value) [ none ↦ f | some e ↦ append_verbatim f e ]

  -- Append() with a text for its value
  unfoldable pub append : FormDataBuilder → Bytes → Bytes → FormDataBuilder
  unfolding append_separator append_escape
  append f key value =
      append_escape (append_verbatim (append_verbatim (append_separator f) key) (codes "=")) value

  -- AppendIndexed() with a text for its value
  unfoldable pub append_indexed : FormDataBuilder → Bytes → ℕ → Bytes → FormDataBuilder
  unfolding append_index append_escape
  append_indexed f key idx value = append_escape (append_index f key idx) value
