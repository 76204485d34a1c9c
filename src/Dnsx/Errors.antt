-- ===== src/Dnsx/Errors.antt =====
-- dnsx/errors.go: how the two questions about an error divide the errors.
use mailkit.Prelude.{not, some, ◌≡◌, refl}
use mailkit.Dnsx.{Error, unanswered, unanswered_error, not_found, not_found_error}

unanswered_error-not : (e : Error) → unanswered_error e ≡ not (not_found_error e)
unfolding unanswered_error not_found_error
unanswered_error-not Error.no_record = refl
unanswered_error-not (Error.dns text name server is_not_found) = refl
unanswered_error-not Error.deadline_exceeded = refl
unanswered_error-not Error.canceled = refl
unanswered_error-not (Error.other text) = refl
unanswered_error-not (Error.wrapped text e) = unanswered_error-not e

-- Of every error, however deep it is wrapped, exactly one of the two holds: the name does not
-- exist, or the lookup was not completed.
pub unanswered-not_found : (e : Error) → unanswered (some e) ≡ not (not_found (some e))
unfolding unanswered not_found
unanswered-not_found e = unanswered_error-not e
