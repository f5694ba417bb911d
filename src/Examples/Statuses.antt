-- ===== src/Examples/Statuses.antt =====
-- Status codes and HTTP statuses at concrete values.
use chromedriver.Base.{◌≡◌, refl}
use chromedriver.Status.{status_code_to_string, no_such_cookie}
use chromedriver.HttpHandler.Response.{http_status, http_not_found}
use chromedriver.HttpHandler.ErrorCodes.{http_status-eq_standard}

http_status-eq_standard_example : http_status no_such_cookie ≡ http_not_found
unfolding status_code_to_string
http_status-eq_standard_example = http_status-eq_standard no_such_cookie refl
