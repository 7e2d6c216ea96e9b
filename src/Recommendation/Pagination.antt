-- ===== src/Recommendation/Pagination.antt =====
-- internal/recommendation/pagination.go. A query string is the first value of each of its keys;
-- strconv.ParseInt(_, 10, 32) enters as a function, none its error.
use laburi_to.Base.{
  ℤ, pos, String, Bool, Option, none, some, if◌then◌else◌, ◌||◌, ◌&&◌, int_leb, int_ltb,
}
use laburi_to.Errors.{Result, ok, err, sentinel, invalid_pagination, ◌>>=◌}
use laburi_to.Recommendation.Models.{Page}

abbrev pub default_page_limit : ℤ
default_page_limit = pos 20

abbrev pub max_page_limit : ℤ
max_page_limit = pos 100

abbrev pub Values : Type 0
Values = String → Option String

module _ (parse_int : String → Option ℤ) where
  parsed : Option ℤ → Result ℤ
  parsed none = err (sentinel invalid_pagination)
  parsed (some value) = ok value

  value_or : ℤ → Option String → Result ℤ
  unfolding parsed
  value_or fallback none = ok fallback
  value_or fallback (some text) = parsed (parse_int text)

  -- The conversion to int32 is the identity on what ParseInt returns for 32 bits.
  unfoldable pub parse_page_value : Values → String → ℤ → Result ℤ
  unfolding value_or
  parse_page_value query key fallback = value_or fallback (query key)

  limited : ℤ → Result ℤ
  limited limit =
      if int_leb limit (pos 0) || int_ltb max_page_limit limit
      then err (sentinel invalid_pagination)
      else ok limit

  nonnegative : ℤ → Result ℤ
  nonnegative offset =
      if int_ltb offset (pos 0) then err (sentinel invalid_pagination) else ok offset

  unfoldable pub parse_page : Values → Result Page
  unfolding limited nonnegative
  parse_page query = do
    given ← parse_page_value query "limit" default_page_limit
    limit ← limited given
    skipped ← parse_page_value query "offset" (pos 0)
    offset ← nonnegative skipped
    ok (record { limit = limit; offset = offset })

  -- The limits and offsets that a page may have.
  unfoldable pub page_valid : Page → Bool
  page_valid page =
      int_leb (pos 1) page.limit && int_leb page.limit max_page_limit && int_leb (pos 0) page.offset

  paged : Result ℤ → Result ℤ → Result Page
  unfolding limited nonnegative
  paged first second = do
    given ← first
    limit ← limited given
    skipped ← second
    offset ← nonnegative skipped
    ok (record { limit = limit; offset = offset })
