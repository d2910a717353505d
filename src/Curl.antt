-- ===== src/Curl.antt =====
-- spider/curl-to-go/curl-to-go.go: a curl command line becomes a function that sends the request.
pub mod Parse
pub mod Items
pub mod Factory
