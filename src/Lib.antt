-- ===== src/Lib.antt =====
-- Amundsen is a data catalogue. Its Python library databuilder fills the catalogue: a job runs a
-- task, which extracts records, transforms them and loads the graph nodes and relations of each
-- record into files; a publisher then sends the files to a graph database, and further tasks
-- remove what has become stale. The search service answers what the frontend asks of the
-- catalogue. This library models the part of databuilder that decides what ends up in the
-- stores, the search from the frontend's request to the answer, and what happens when a step
-- raises.
--
-- The modules follow the source. Paths are below databuilder/databuilder, but those of Common
-- and Search.
-- - Prelude: shared names; Python's string methods on ASCII text; equality of keys; actions on a
--   world that may raise (Effects).
-- - Models.Graph: models/graph_node.py, models/graph_relationship.py and the checks of
--   models/graph_serializable.py (next_node, next_relation and the validate functions).
-- - Models.Description, Models.Badge, Models.TypeMetadata: models/description_metadata.py,
--   models/badge.py and models/type_metadata.py. A type is a tree; the classes are its
--   constructors.
-- - Models.Table: models/table_metadata.py. Defs has tags, columns, tables and the keys; Nodes
--   is _create_next_node, Relations is _create_next_relation and Records is
--   _create_record_iterator, as the lists that the generators yield; Models.Rds has the rows of
--   the RDS with their own keys and those that they refer to. Models.Serialized is the loop that
--   yields shared nodes and relations once, over the sets that the class keeps for the whole run
--   of the program. load_tables is the order in which FsNeo4jCSVLoader.load of
--   loader/file_system_neo4j_csv_loader.py drains one table after the other.
-- - Models.Complex: transformer/complex_type_transformer.py, with its parsing function as a
--   parameter.
-- - Etl.Closer: utils/closer.py. Etl.Callback: callback/call_back.py, and publish of
--   publisher/base_publisher.py. Etl.Transformer and Etl.Chain: transform, and init and close,
--   of transformer/base_transformer.py. Etl.Task: DefaultTask.run of task/task.py; Task.Memory
--   runs it over parts that read and write lists and may each raise, the extractor included.
--   Etl.Job: DefaultJob.launch of job/job.py; Job.Trace runs it over steps that log themselves.
-- - Extractor: the extractors of extractor that group the rows of a query into tables. Groups
--   has what they share (_get_table_key, _get_extract_iter and extract, which each of them
--   repeats), Dialects what each of hive_table_metadata_extractor.py,
--   base_postgres_metadata_extractor.py, db2_metadata_extractor.py,
--   oracle_metadata_extractor.py, base_teradata_metadata_extractor.py,
--   dremio_metadata_extractor.py, athena_metadata_extractor.py, druid_metadata_extractor.py,
--   mssql_metadata_extractor.py and snowflake_metadata_extractor.py makes of its rows. The rows
--   are those that the query gives; unidecode is a parameter.
-- - Loader: FsNeo4jCSVLoader of loader/file_system_neo4j_csv_loader.py. Rows is
--   serializers/neo4_serializer.py; Files is load, _get_writer and _make_key over the loader's
--   dictionaries: a writer has the rows that it is given and the name of the file that it opens.
--   Relations of the same labels and type with different columns get two writers of one file;
--   what such a file then holds is not modelled.
-- - Publisher: Neo4jCsvPublisher of publisher/neo4j_csv_publisher.py. Statements has the Cypher
--   statements as what their templates are given; Transactions is _execute_statement; Publish
--   has the loops over files, the retries and the indices.
-- - Elastic: ElasticsearchPublisher of publisher/elasticsearch_publisher.py. Connection has the
--   calls of the client, Bulk is publish_impl and _fetch_old_index, and Contract says what is
--   relied on of the cluster. publish_impl starts from the records that are read from the file.
-- - RestApi: RestApiQuery of rest_api/rest_api_query.py, with rest_api/query_merger.py and the
--   pagination of rest_api/mode_analytics/mode_paginated_rest_api_query.py. SubRecords is
--   _compute_sub_records, Merger is QueryMerger, Execution is execute, Mode has the methods that
--   the paginated class overrides. A generator is a loop that runs a body for each record when
--   it yields it, so that the requests of joined queries keep their order.
-- - Staleness: Neo4jStalenessRemovalTask of task/neo4j_staleness_removal_task.py. Setup is init,
--   Statements has the text of the statements, Run is run and what it calls.
-- - Common: AtlasTableKey of common/amundsen_common/utils/atlas.py, which joins the names of
--   Atlas to the keys of the catalogue. Patterns matches the regular expressions from the left
--   with backtracking, as Python does; Atlas has the properties of the class.
-- - Mysql: FSMySQLCSVLoader of loader/file_system_mysql_csv_loader.py and MySQLCSVPublisher of
--   publisher/mysql_csv_publisher.py. Files is load and _get_writer, with _make_key of Loader;
--   Names has the names of the files, Publish is _sort_record_files, publish_impl, _publish and
--   _execute. What a row refers to is said in Models.Rds.
-- - Search: the search of the search service, with what the frontend asks of it. Resources has
--   the enumeration of search/search_service/proxy/es_proxy_utils.py and the field tables of
--   ElasticsearchProxyV2 of proxy/es_proxy_v2.py; Queries is _build_must_query, _build_filters
--   and _build_elasticsearch_query, Execution is execute_queries, Response is _format_response
--   and search, Documents is get_document_json_by_key, update_document_by_key and
--   delete_document_by_key; Health is health; Endpoint is SearchAPI.post of api/search.py.
--   Requests is _transform_filters and generate_query_request of
--   frontend/amundsen_application/api/search/v1.py and api/utils/search_utils.py.
-- - Tests: runs on concrete inputs.
--
-- State is passed explicitly: an action takes a world and gives a result or an exception
-- together with the world after it. The class attribute sets, the stack of the closer and the
-- count of the publisher are components of such worlds.
--
-- Third-party code is a parameter. The parser of types is a function; HTTP requests, JSON paths
-- and the formatting of URLs are fields of Hooks and Transport in RestApi; the Elasticsearch
-- client is a record of actions, with the equations of Cluster in Elastic, and those of Serves
-- and Store in Search. Serves says that a search within the result window, 10,000 places by
-- default, is answered by a page of the matching documents with their number up to the window,
-- and that the documents of the index of a resource name the resource in resource_type; the
-- queries of elasticsearch_dsl are of any type with its constructors (Dsl), and Matching says
-- which documents they match; the Neo4j driver is a record of actions in Publisher and a query
-- function in Staleness, and what is relied on of it is a record of equations (Accepting,
-- RollsBack, Store). The session of SQLAlchemy is a record of actions in Mysql, with a log of
-- its merges (Log); the classes of amundsen_rds give rows their table names and columns. CSV
-- files are lists of rows; the publisher starts from the rows as pandas reads them, and
-- Loader.RoundTrip has what pandas makes of a cell as a parameter.
--
-- Three loops run on fuel, since what they read may never end: the pages of a REST query, for
-- which one round for each page is enough; the loop of DefaultTask.run, for which two rounds
-- more than there are pending records are enough, and the batch deletion, for which more rounds
-- than stale records are enough. Everything else is structural recursion.
--
-- Not modelled: the SQL of the extractors and the connections to databases; logging, but for the
-- division by the frequency of the progress reports, which raises where it is 0; reading of
-- configuration files; the Atlas entities of the models; the check that the constructor of
-- RestApiQuery makes of its JSON path; the directories of the CSV loaders; a callable that
-- registers another one while the closer is closing; line ends in the keys of Common; text
-- outside ASCII in lower, isupper, istitle and strip. The staleness percentage is compared
-- without division, as the floating-point quotient is only compared. Of a search, page numbers
-- are not negative, and the JSON that passes between the services has passed its schemas. The
-- metadata service, and the other parts of the search and frontend services, are outside this
-- library.
pub mod Prelude
pub mod Models
pub mod Extractor
pub mod Common
pub mod Etl
pub mod Loader
pub mod Publisher
pub mod Elastic
pub mod RestApi
pub mod Staleness
pub mod Search
pub mod Mysql
pub mod Tests
