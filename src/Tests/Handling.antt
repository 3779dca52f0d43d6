-- ===== src/Tests/Handling.antt =====
-- The virtual `HandleRequest`.
use cs.Prelude.{arith, some, [], ◌∷◌, ◌++◌, codes}
use cs.Http.Request.{Request}
use cs.Handler.{echo_request_handler}
use cs.Handler.Status.{Statics}
use cs.Handler.Virtual.{Environment, handle_request}
use cs.Handler.Virtual.Lengths.{IsSized, handle_request-HasContentLength}
use cs.Tests.Posting.{no_files}
use cs.Tests.Proxying.{sample_libraries, silent_network, proxy_request}

abbrev pub sample_environment : Environment
sample_environment = record {
  libraries = sample_libraries;
  files = no_files;
  nets = λ n. silent_network;
  fuel = 3;
  read_posts = λ posts. some posts;
  insert_post = λ posts post. some (posts ++ (post ∷ []));
  request_handler_uri = [];
}

abbrev pub first_statics : Statics
first_statics = record { request_code_received_ = []; num_requests = 1; posts = [] }

abbrev hello : Request
hello = record (proxy_request (codes "/echo")) { body_ = codes "hello\r\n" }

handle_request-HasContentLength_example :
    IsSized (handle_request sample_environment echo_request_handler hello first_statics)
handle_request-HasContentLength_example =
    handle_request-HasContentLength sample_environment echo_request_handler hello first_statics tt
      (omega arith) (omega arith)
