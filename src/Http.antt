-- ===== src/Http.antt =====
-- What the code takes from net/http, net/url, strconv and time: header maps and URLs as data, and
-- as parameters the parsers and printers that it only calls.
pub mod Headers
pub mod Names
pub mod Platform
