-- ===== src/Lib.antt =====
-- A web server in C++ on Boost.Asio: what it does with its configuration file, with the bytes that it
-- receives, and with the requests that it reads from them.
--
-- The parts and how they interact. `main` reads a configuration file, checks the port and starts the
-- server. The dispatcher builds one request handler for each location of the configuration. For each
-- connection a session reads bytes, puts them into the shape that the request parser expects, runs the
-- parser over them, asks the dispatcher for the handler of the URI, and writes the reply that the
-- handler makes. The status handler reads the counters and the codes that sessions record.
--
-- The files, and the code that they are about:
-- - Prelude and its parts: lists, tests on numbers and bytes, texts as lists of bytes, and integers.
-- - OrderedMap: std::map with texts for keys, as a list in the order of the keys.
-- - Decimal: std::to_string and std::stoi. Strings: the operations of std::string that several parts
--   use. Boost: boost::replace_all, a parameter with its documented behaviour on single bytes
--   and on texts that do not hold what is searched for.
-- - Http/Request, Http/RequestParser: include/http/request.h, include/http/request_parser.h and
--   src/http/request_parser.cc. `consume_in` is request_parser::consume, `feed` is the loop of
--   request_parser::parse and `parse` that function. A byte is a number below 256; `promote` gives the
--   int that a signed char of it becomes. Grammar under it is a description of the heads of requests,
--   with their lines, and of the request that each comes to, with the numbers in decimal; which bytes
--   may stand where is given by the parser's own tests, which CharClasses and Tokens compare with
--   ranges and lists of bytes. `unset` is the value of a method that nothing has set and that is none
--   of the nine.
-- - Http/Reply: include/http/reply.h and src/http/reply.cc.
-- - Config/Syntax: the statements of a configuration and their blocks. Config/Lexer and Config/Parser:
--   src/config_parser/nginx_config_parser.cc. The stack of open blocks holds each block backwards, with
--   the last statement first. The grammar of Config/Parser/Grammar is one of tokens, as ParseToken
--   returns them: a word that the end of the file cuts off is none. Config/Lexer/Shapes describes the
--   tokens by their bytes. Config/Printer: ToString in src/config_parser/nginx_config.cc and
--   nginx_config_statement.cc. Config/Query: GetConfig and GetPort there, and main in
--   src/server_main.cc.
-- - Handler: the Init functions of src/request_handler. Handler/Fixed, Handler/Static and
--   Handler/Status: HandleRequest of the handlers for echo, health, bad request, not found, redirect,
--   static files and status. What a handler asks of the file system and of the Markdown library is a
--   parameter; the questions to the file system may fail with an exception.
-- - Handler/Markdown: src/request_handler/markdown_handler.cc, and the loop of getTenMarkdowns in
--   src/db/db_handler.cc. What a view gives to the database is part of its result; the posts that the
--   database holds are a parameter.
-- - Db: src/db/db_handler.cc and src/db/db_instance.cc, with the pool of connections as state. The
--   MongoDB client is the parameter `Mongo` of Db/Client, whose functions fail with exceptions; a call
--   ends with a value, an exception or undefined. `store_submission` and `read_posts` are what the
--   Markdown handler asks of it; Handler/Virtual has in their place the list of posts,
--   and `read_posts` and `insert_post` on it, which may fail with an exception.
-- - Handler/ReverseProxy and the files under it: HandleRequest of
--   src/request_handler/reverse_proxy_handler.cc. Outgoing is the request that it sends, Response how
--   it reads the response, Redirecting what a handler does with the answers of the
--   network; External holds what it takes from other libraries, and `Network` the
--   resolver and the socket, as parameters. `handle_once` is one call, which ends or goes on with
--   another request; `handle_proxy` is the function with the calls of itself.
-- - Dispatcher: src/request_handler/dispatcher.cc.
-- - Handler/Virtual: HandleRequest of all classes as one function, on what the handlers take from
--   outside.
-- - Session: handle_read of src/session.cc. Session/Endings is about how a call
--   ends, Session/Serving about requests with "\r\n", Session/BareNewlines about those with a newline alone, Session/Refusing about bytes that are no request.
-- - Logger: src/logger/logger.cc, the texts that it gives to Boost.Log.
-- - Server: src/server.cc, and the constructor, start and handle_write of include/session.h and
--   src/session.cc. Boost.Asio is the state `IoService` with the operations that are pending; a step of
--   Server/Steps completes one of them, in any order and with or without an error, as the code does:
--   an accept by handle_accept, a read by handle_read, a write by handle_write. Steps do not overlap.
--   Server/Service puts the parts together, from the text of a configuration file to the buffers that
--   a client gets.
-- - Tests: runs on small inputs.
--
-- Undefined behaviour of the code, such as a null pointer read or an empty vector's back taken, is a
-- result of its own in the model, with three exceptions, which C++ leaves undefined too and the model
-- takes as the machine does: a version number that overflows an int wraps around, the members of a
-- session that nothing sets hold some value, and Parse is called through a pointer that nothing sets
-- and that it does not use.
--
-- Fuel. The configuration parser's loop runs on the length of the input and one more, the session's
-- trimming loop and the loop that strips slashes on the length of their text: each round takes a byte
-- at least. `handle_read` calls itself, on fuel that counts the calls; two are enough.
-- `handle_proxy` counts its calls of itself too: no number is enough for every network. A decimal number
-- is written on fuel that is the number itself.
--
-- Not modelled: the sinks of the logger and its calls, threads that run at the same time and their
-- races on the static members, the MongoDB client, and the copies of the Markdown and gzip libraries
-- under include.
mod Prelude
pub mod OrderedMap
pub mod Decimal
pub mod Boost
pub mod Strings
pub mod Http
pub mod Config
pub mod Handler
pub mod Db
pub mod Dispatcher
pub mod Logger
pub mod Server
pub mod Session
mod Tests
